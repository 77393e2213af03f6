-- ===== src/Help/Client.antt =====
-- The texts of `ptrim-client --help`.
use plasma_trim_cli.Base.{ℕ, List, [], ◌∷◌, codes}

unfoldable pub client_texts : List (ℕ × List ℕ)
client_texts =
    (0, codes "")
    ∷ (0, codes "SYNOPSIS")
    ∷ (1, codes "ptrim-client")
    ∷ (1, codes "ptrim-client --help")
    ∷ (1, codes "ptrim-client --version")
    ∷ (0, codes "")
    ∷ (1, codes "ptrim-client <host> [port] <security-code> <identifier> start")
    ∷ (1, codes "ptrim-client <host> [port] <security-code> <identifier> stop")
    ∷ (0, codes "")
    ∷ (1, codes "ptrim-client <host> [port] <security-code> <identifier> name [new-name]")
    ∷ (
      1,
      codes "ptrim-client <host> [port] <security-code> <identifier> brightness [new-brightness]",
    )
    ∷ (0, codes "")
    ∷ (
      1,
      codes
          "ptrim-client <host> [port] <security-code> <identifier> color [new-color [temp-brightness]]",
    )
    ∷ (
      1,
      codes
          "ptrim-client <host> [port] <security-code> <identifier> fade <new-color> <fade-time> [temp-brightness]",
    )
    ∷ (0, codes "")
    ∷ (1, codes "ptrim-client <host> [port] <security-code> <identifier> download [sequence-file]")
    ∷ (
      1,
      codes "ptrim-client <host> [port] <security-code> <identifier> full_download [sequence-file]",
    )
    ∷ (0, codes "")
    ∷ (1, codes "ptrim-client <host> [port] <security-code> <identifier> upload [sequence-file]")
    ∷ (
      1,
      codes "ptrim-client <host> [port] <security-code> <identifier> full_upload [sequence-file]",
    )
    ∷ (0, codes "")
    ∷ (0, codes "DESCRIPTION")
    ∷ (1, codes "Use ptrim to control, program, read from, and write to one or more PlasmaTrims")
    ∷ (0, codes "")
    ∷ (0, codes "USAGE")
    ∷ (1, codes "ptrim-client --help")
    ∷ (2, codes "Display the help document along with version information")
    ∷ (0, codes "")
    ∷ (1, codes "ptrim-client --version")
    ∷ (2, codes "Display the version number")
    ∷ (0, codes "")
    ∷ (1, codes "ptrim-client <host> [port] <security-code> <identifier> start")
    ∷ (2, codes "Start the last uploaded sequence on PlasmaTrim(s) at identifier")
    ∷ (0, codes "")
    ∷ (1, codes "ptrim-client <host> [port] <security-code> <identifier> stop")
    ∷ (2, codes "Stop the last uploaded sequence on PlasmaTrim(s) at identifier")
    ∷ (0, codes "")
    ∷ (1, codes "ptrim-client <host> [port] <security-code> <identifier> name [new-name]")
    ∷ (2, codes "Show the name of PlasmaTrim(s) at identifier and optionally save it as new-name")
    ∷ (
      2,
      codes
          "WARNING: Saving the name as a new value will write to non-volatile memory, do not run this hundreds of thousands of times!",
    )
    ∷ (0, codes "")
    ∷ (
      1,
      codes "ptrim-client <host> [port] <security-code> <identifier> brightness [new-brightness]",
    )
    ∷ (
      2,
      codes
          "Show the brightness of PlasmaTrim(s) at identifier and optionally save it as new-brightness",
    )
    ∷ (
      2,
      codes
          "WARNING: Saving the brightness as a new value will write to non-volatile memory, do not run this hundreds of thousands of times!",
    )
    ∷ (0, codes "")
    ∷ (
      1,
      codes
          "ptrim-client <host> [port] <security-code> <identifier> color [new-color [temp-brightness]]",
    )
    ∷ (
      2,
      codes
          "Show the color(s) that PlasmaTrim(s) at identifier are displaying and optionally set it to new-color with either the saved brightness level or temp-brightness",
    )
    ∷ (0, codes "")
    ∷ (
      1,
      codes
          "ptrim-client <host> [port] <security-code> <identifier> fade <new-color> <fade-time> [temp-brightness]",
    )
    ∷ (
      2,
      codes
          "Fade PlasmaTrim(s) at identifier to new-color over fade-time with either the saved brightness level or temp-brightness",
    )
    ∷ (0, codes "")
    ∷ (1, codes "ptrim-client <host> [port] <security-code> <identifier> download [sequence-file]")
    ∷ (
      2,
      codes
          "Download the current programmed sequence from PlasmaTrim(s) at identifier either to stdout or sequence-file.",
    )
    ∷ (2, codes "Currently this is not very clean, it can not generate pure sequence files yet.")
    ∷ (
      2,
      codes
          "Once the last active slot is reached report all remaining slots as black to speed up this process.",
    )
    ∷ (0, codes "")
    ∷ (
      1,
      codes "ptrim-client <host> [port] <security-code> <identifier> full_download [sequence-file]",
    )
    ∷ (
      2,
      codes
          "Download the current programmed sequence from PlasmaTrim(s) at identifier either to stdout or sequence-file.",
    )
    ∷ (2, codes "Currently this is not very clean, it can not generate pure sequence files yet.")
    ∷ (2, codes "Do not stop at the last active slot, get all the data from the device.")
    ∷ (0, codes "")
    ∷ (1, codes "ptrim-client <host> [port] <security-code> <identifier> upload [sequence-file]")
    ∷ (2, codes "Upload the sequence file sequence-file or stdin to PlasmaTrim(s) at identifier")
    ∷ (
      2,
      codes
          "Once the last active slot is reached stop uploading and do not black out unused slots to make the upload faster.",
    )
    ∷ (
      2,
      codes
          "WARNING: Uploading sequences write to non-volatile memory, do not run this hundreds of thousands of times!",
    )
    ∷ (0, codes "")
    ∷ (
      1,
      codes "ptrim-client <host> [port] <security-code> <identifier> full_upload [sequence-file]",
    )
    ∷ (2, codes "Upload the sequence file sequence-file or stdin to PlasmaTrim(s) at identifier")
    ∷ (
      2,
      codes
          "Once the last active slot is reached black out all unused slots at the cost of a longer upload time.",
    )
    ∷ (
      2,
      codes
          "WARNING: Uploading sequences write to non-volatile memory, do not run this hundreds of thousands of times!",
    )
    ∷ (0, codes "")
    ∷ (0, codes "OPTIONS")
    ∷ (1, codes "host   The host to find ptrim-server on.")
    ∷ (0, codes "")
    ∷ (1, codes "port   The port to connect over. Default 26163")
    ∷ (0, codes "")
    ∷ (1, codes "security-code")
    ∷ (
      2,
      codes
          "A simple password or pin that is used to authenticate to the server. Special characters must be escaped.",
    )
    ∷ (0, codes "")
    ∷ (1, codes "identifier")
    ∷ (
      2,
      codes
          "The PlasmaTrim(s) to select. This can be a single serial number, multiple serial numbers, or the keyword \"all\". Examples:",
    )
    ∷ (2, codes "00B12345")
    ∷ (2, codes "\"00B12345 00B12346\"")
    ∷ (2, codes "all")
    ∷ (0, codes "")
    ∷ (1, codes "new-name")
    ∷ (2, codes "The new name to save into the PlasmaTrim. All special characters must be escaped.")
    ∷ (0, codes "")
    ∷ (1, codes "new-brightness")
    ∷ (
      2,
      codes
          "The new brightness value to store in memory. This value will be remembered after a power cycle and should be between 1 and 100.",
    )
    ∷ (0, codes "")
    ∷ (1, codes "temp-brightness")
    ∷ (
      2,
      codes
          "The temporary brightness value to be used for this command only. This value will not be remembered after a power cycle and should be between 1 and 100.",
    )
    ∷ (0, codes "")
    ∷ (1, codes "new-color")
    ∷ (
      2,
      codes
          "A hex color code to use for this command. It can be in 3 or 6 digit format, either one color for every LED or one color for all the LEDs, upper or lower case, space separation is allowed if it is wrapped in quotes. Valid examples for setting every LED to red would be:",
    )
    ∷ (2, codes "F00")
    ∷ (2, codes "FF0000")
    ∷ (2, codes "F00F00F00F00F00F00F00F00")
    ∷ (2, codes "\"F00 F00 F00 F00 F00 F00 F00 F00\"")
    ∷ (2, codes "FF0000FF0000FF0000FF0000FF0000FF0000FF0000FF0000")
    ∷ (2, codes "\"FF0000 FF0000 FF0000 FF0000 FF0000 FF0000 FF0000 FF0000\"")
    ∷ (0, codes "")
    ∷ (1, codes "fade-time")
    ∷ (
      2,
      codes
          "How much time to take while making a fade. A single hex character is used and it conforms to the same timing scheme as the sequence timing.",
    )
    ∷ (0, codes "")
    ∷ (1, codes "sequence-file")
    ∷ (
      2,
      codes
          "The path to a .ptSeq file. Both Simple Sequence Format and Multiple Sequence Formats are accepted. If no file is given the for upload stdin will be used, if no file is given for download stdout will be use.",
    )
    ∷ []
