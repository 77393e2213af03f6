-- ===== src/Lib.antt =====
-- Models and proofs for PlasmaTrim-CLI: the programs ptrim, ptrim-server and ptrim-client that
-- control PlasmaTrim lights over USB.
--
-- src/ptrim-lib.cc holds the commands to a device, the colour formats, and the sequence files; the
-- programs are built on it. src/ptrim-server.cc lets several clients share the devices over TCP: it
-- keeps a table of the devices, runs each command in a thread for each device, and tells all
-- clients of every change.
--
-- The files:
--   Base      C bytes, lists as arrays, integers, and the lemmas that all files share.
--   Hex       digits in base 16, as getSerial, getColor, download and makeColor treat them.
--   Decimal   atoi and the number formats of printf, as far as they are used.
--   Color     makeColor, makeHumanColor, the text of getColor. Color/Format has the accepted formats as
--             one table, Color/RoundTrip the way back from printed colours.
--   Machine   hid_write and hid_read, and the world that the program acts on.
--   Device    the commands of src/ptrim-lib.cc, get_serial for getSerial and so on.
--   Sequence  download and upload.
--   Timing    hold and fade.
--   Text      format_print and the versions.
--   Files     fopen, fgets and fprintf, as the programs use them.
--   Net       the sockets.
--   Stream    streamData: Stream/Read is the reading of a file. Stream/Played is about the slots that are
--             shown, Stream/Saved about a file that download wrote.
--   Ptrim     src/ptrim.cc: Ptrim/Open is the part of main that opens devices, Ptrim/Command is
--             runCommand with upload and download of files, Ptrim/Main is main. Ptrim/Clone is about a
--             file that download wrote, Ptrim/All about calls for all devices.
--   Client    src/ptrim-client.cc: main and sendFile; Client/Arguments is the reading of its arguments,
--             Client/Welcome the loop that waits for the greeting, Client/Visit a call from the
--             connection to the exit code.
--   Server    src/ptrim-server.cc: Server/State is the table of devices, Server/Run is runThread,
--             Server/Command is runCommand and findDeviceNumber, Server/Info the messages to the
--             clients, Server/Session is manageConnection, Server/Connection its end, Server/Monitor a
--             round of monitorDevices, Server/Accept is main. Server/Monitored is about such a round as
--             a whole, Server/Shared about the commands that the threads of one command share,
--             Server/Dialogue about the client and the server at the two ends of a connection,
--             Server/Denial and Server/Farewell about two clients from their first word to their last.
--   Help      help of the three programs.
--   Examples  the theorems with hypotheses on concrete inputs.
--
-- A C string is the list of the bytes from its pointer on, with the terminator and what is behind
-- it. An array is a list; a read outside of it gives 0 and a write outside of it changes nothing. A
-- char is its bit pattern, and comparisons of signed chars are written out. Variables of type
-- unsigned char wrap.
--
-- hidapi is not modelled: a Machine is two functions for hid_write and hid_read on an unknown
-- state, and the value of uninitialised memory. What is proved of the traffic holds for every
-- Machine that answers: IsResponsive says that after each hid_write some hid_read within a number
-- of tries, `patience`, does not say "nothing yet". hid_enumerate, hid_open_path and hid_close are
-- a Bus of Server/Monitor. In the same way the files are a Disk and the sockets are a Net. A World
-- keeps the reports that were sent and what was sent to sockets, newest first.
--
-- A step that returns `none` has no result: a loop used up its fuel, or the code does what has no
-- meaning in C, as where a serial number of more than 9 characters overflows a buffer of
-- runCommand, or the greeting of the server one of ptrim-client. The fuels are 256 rounds for
-- upload's lines, which is all that its unsigned char can count; 256 for the loops of makeColor on
-- unsigned chars; 512 for the digits of a slot count, of which there are fewer than 256 places; and
-- one more than the length of the text for format_print and for the serial numbers of a command. A
-- list of serial numbers of ptrim has 256 rounds for its unsigned char, for each of the 32 devices
-- that it may find and once more. fgets has a round for each byte. The loops that read from a
-- socket (serve, read_greeting, print_download) end when the other side says so: their fuel is an
-- argument, and so are the rounds of the endless loop of streamData. Theorems that say Returned
-- state that the code ends normally.
--
-- Not modelled: hidapi. The arithmetic of fade on double is a parameter of fade. The threads of one
-- command, of the server and of ptrim, run one after the other, and so streamData is modelled for a
-- device that is the only one: where it waits for other threads it has no result. During a session
-- of manageConnection the table changes only by the commands of that session, and a round of
-- monitorDevices sees no change of the table by other threads. Writes to a socket succeed. The
-- lines of an upload of the server that the client did not send are taken as empty. What makeColor
-- strips of a command is passed on to the threads of that command, not to a later command. A code
-- of the server of more than 254 characters, which overflows a buffer, has no such effect here.
pub mod Base
pub mod Hex
pub mod Color
pub mod Machine
pub mod Decimal
pub mod Device
pub mod Sequence
pub mod Timing
pub mod Server
pub mod Text
pub mod Examples
pub mod Help
pub mod Files
pub mod Ptrim
pub mod Stream
pub mod Net
pub mod Client
