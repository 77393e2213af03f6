-- ===== src/Client.antt =====
-- The network client, src/ptrim-client.cc. Arguments reads its arguments and the greeting of the server.
mod Arguments
pub mod Speech
pub mod File
pub mod Welcome
pub mod Visit
unfoldable pub use Arguments.*
use plasma_trim_cli.Base.{
  ℕ, zero, suc, ◌+◌, ◌-◌, ◌*◌, inl, inr, true, false, not, ◌||◌, Option, none, some, List, [], ◌∷◌,
  ◌++◌, map, ltb, ◌==◌, if◌then◌else◌, length, take, replicate, codes, c_string, same_text,
}
use plasma_trim_cli.Decimal.{atoi}
use plasma_trim_cli.Machine.{
  Machine, World, M, ◌>>=◌, ◌>>◌, pure, stuck, or_stuck, when, delay, printf, fprintf_stderr, send,
}
use plasma_trim_cli.Text.{ptrim_lib_version, ptrim_client_version}
use plasma_trim_cli.Help.{client_help}
use plasma_trim_cli.Sequence.{crlf}
use plasma_trim_cli.Files.{Disk, fgets_lines, open_file}
use plasma_trim_cli.Net.{
  Net, Arrival, timed_out, select_failed, read_failed, arrived, receive_within, close_socket,
  connect_at,
}

module _ {m : Machine} where
  -- `write (sockfd, text, strlen (text) + 1)`
  unfoldable pub write_line : ℕ → List ℕ → M m (Unit {0})
  write_line socket text = send socket (text ++ (0 ∷ [])) (suc (length text))

  -- A loop over arguments or lines, with a pause behind each.
  unfoldable pub write_lines : ℕ → ℕ → List (List ℕ) → M m (Unit {0})
  write_lines pause socket [] = pure tt
  write_lines pause socket (text ∷ texts) = do
    write_line socket text
    delay pause
    write_lines pause socket texts

  -- `write (sockfd, "\r\n", 3)`
  abbrev pub end_command : ℕ → M m (Unit {0})
  end_command socket = send socket (crlf ++ (0 ∷ [])) 3

  unfoldable pub show_read : Option (List ℕ) → M m Flow
  show_read none = do fprintf_stderr (codes "ERROR reading from socket" ++ crlf); pure (exit 255)
  show_read (some buffer) = do printf (c_string buffer); pure next

  -- One part after the other, unless the first one ends the program.
  abbrev pub then_flow : M m Flow → M m Flow → M m Flow
  then_flow f g = f >>= λ r. elim r [ exit code ↦ pure (exit code) | next ↦ g ]

module _ {m : Machine} where
  -- What sendFile does with the file that it has opened.
  unfoldable pub send_content : List ℕ → ℕ → Option (List ℕ) → M m (Unit {0})
  send_content filename socket none = printf (filename ++ (codes " did not open." ++ crlf))
  send_content filename socket (some bytes) =
      write_lines 5 socket (map c_string (fgets_lines 1023 bytes))

module _ {m : Machine} (disk : Disk m) where
  -- sendFile
  unfoldable pub send_file : List ℕ → ℕ → M m (Unit {0})
  send_file filename socket = open_file disk filename >>= send_content filename socket

module _ {m : Machine} (net : Net m) where
  -- `read (sockfd, buffer, 4095)`: the buffer, or `none` for an error.
  unfoldable pub read_buffer : ℕ → M m (Option (List ℕ))
  read_buffer socket w = some (
    elim ((net.read socket w.outside).0) [ none ↦ none | some bytes ↦ some (take 4095 bytes) ],
    record w { outside = (net.read socket w.outside).1 },
  )

  -- `while (strcmp (buffer, "[ready]\r\n") != 0 && strcmp (buffer, "[incorrect code]\r\n") != 0)`,
  -- with fuel; `none` is a read that failed. A message that does not fit its array has no meaning.
  unfoldable pub read_greeting : ℕ → ℕ → List ℕ → Greeting → M m (Option Greeting)
  read_greeting zero socket buffer g = stuck
  read_greeting (suc fuel) socket buffer g = elim (is_greeted buffer) [
    | true ↦ pure (some g)
    | false ↦ or_stuck (save_message buffer g) >>= λ saved. read_buffer socket >>= λ r. elim r [
      | none ↦ pure none
      | some more ↦ read_greeting fuel socket more saved
    ]
  ]

  -- An answer is read and printed.
  unfoldable pub show_answer : ℕ → M m Flow
  show_answer socket = read_buffer socket >>= show_read

  -- The loop of the download commands, with fuel: what comes within 5 seconds is printed until
  -- "[ready]".
  unfoldable pub print_download : ℕ → ℕ → M m Flow
  print_download zero socket = stuck
  print_download (suc fuel) socket = receive_within net socket 5 >>= λ arrival. elim arrival [
    | select_failed ↦ pure (exit 255)
    | timed_out ↦ pure next
    | read_failed ↦ fprintf_stderr (codes "ERROR reading from socket" ++ crlf) >> pure (exit 255)
    | arrived bytes ↦ elim (same_text (c_string (take 4095 bytes)) ready_text) [
      | true ↦ pure next
      | false ↦ do printf (c_string (take 4095 bytes)); print_download fuel socket
    ]
  ]

module _ {m : Machine} (disk : Disk m) (net : Net m) where
  -- upload: the arguments but the last, the file, and the end of the command; two answers are shown
  -- here and one more by main.
  unfoldable pub send_upload : ℕ → List (List ℕ) → ℕ → M m Flow
  send_upload socket argv offset = do
    write_lines 25 socket (arguments argv (4 - offset) (length argv - 1))
    (if length argv + offset == 7
        then send_file disk (text_at argv (length argv - 1)) socket
        else (do
          write_line socket (text_at argv (length argv - 1))
          delay 25
          send_file disk (codes "stdin") socket))
    end_command socket
    then_flow (show_answer net socket) (show_answer net socket)

  -- download: with a file name, the name is not sent, and nothing is written to the file.
  unfoldable pub send_download : ℕ → ℕ → List (List ℕ) → ℕ → M m Flow
  send_download fuel socket argv offset = do
    write_lines 25 socket (arguments argv (4 - offset) (length argv - 1))
    (if length argv + offset == 7
        then pure tt
        else (do write_line socket (text_at argv (length argv - 1)); delay 25))
    end_command socket
    print_download net fuel socket

  -- The command of the arguments, and the pause behind it.
  unfoldable pub send_arguments : ℕ → ℕ → List (List ℕ) → ℕ → M m Flow
  send_arguments fuel socket argv offset =
      if is_transfer (codes "upload") (codes "full_upload") argv (5 - offset)
      then then_flow (send_upload socket argv offset) (delay 25 >> show_answer net socket)
      else if is_transfer (codes "download") (codes "full_download") argv (5 - offset)
      then then_flow (send_download fuel socket argv offset) (delay 25 >> pure next)
      else (do
        write_lines 25 socket (arguments argv (4 - offset) (length argv))
        end_command socket
        delay 25
        show_answer net socket)

  -- What main does with a greeting: too few arguments for a command show it.
  unfoldable pub after_greeting : ℕ → ℕ → List (List ℕ) → ℕ → Greeting → M m Flow
  after_greeting fuel socket argv offset g =
      if length argv + offset == 4 || length argv + offset == 5
      then (do printf (g.about ++ (10 ∷ [])); printf (g.devices ++ (10 ∷ [])); pure next)
      else send_arguments fuel socket argv offset

  -- The last lines of main: "!" ends the connection.
  unfoldable pub leave : ℕ → M m ℕ
  leave socket = do
    delay 25
    send socket (codes "!" ++ (crlf ++ (0 ∷ []))) 3
    close_socket net socket
    pure 0

  -- main behind connect, for a code that is there; without one, strlen gets a null pointer.
  unfoldable pub talk : ℕ → List (List ℕ) → ℕ → ℕ → M m ℕ
  talk fuel argv offset socket = do
    delay 5
    (if ltb (3 - offset) (length argv)
        then send socket (text_at argv (3 - offset)) (length (text_at argv (3 - offset)))
        else stuck)
    greeted ←
        read_greeting net fuel socket (replicate 4096 0)
          (record { save_to = 0; about = []; devices = [] })
    elim greeted [
      | none ↦ fprintf_stderr (codes "ERROR reading from socket" ++ crlf) >> pure 255
      | some g ↦ after_greeting fuel socket argv offset g >>= λ flow. elim flow [
        | exit code ↦ pure code
        | next ↦ leave socket
      ]
    ]

  -- main; its result is the exit code. A write to a socket is taken to succeed.
  unfoldable pub client_main : ℕ → ℕ → List (List ℕ) → M m ℕ
  client_main columns fuel argv = elim (read_call argv) [
    | none ↦ stuck
    | some request ↦ elim request [
      | version ↦ do ptrim_lib_version columns; ptrim_client_version columns; pure 0
      | help ↦ client_help columns >> pure 0
      | connect call ↦ connect_at net call.host call.port >>= λ connected. elim connected [
        | inr error ↦ fprintf_stderr error >> pure 255
        | inl socket ↦ talk fuel argv call.offset socket
      ]
    ]
  ]
