-- ===== src/Server/Run/Files.antt =====
-- The commands of runThread that carry sequence files: upload and download.
use plasma_trim_cli.Base.{
  pos, ltb_ℤ, ℕ, ◌-◌, Bool, true, false, not, ◌||◌, List, [], ◌∷◌, ◌==◌, if◌then◌else◌, length,
  get_or, drop, codes, c_string,
}
use plasma_trim_cli.Machine.{Machine, M, ◌>>=◌, ◌>>◌, pure, stuck, delay, send}
use plasma_trim_cli.Sequence.{download, upload, is_last}
use plasma_trim_cli.Server.State.{DeviceState, Instance, is_command, send_text, answer}

-- The lines of a file among the commands, which upload gets.
unfoldable pub file_of : List (List ℕ) → List (List ℕ)
file_of [] = []
file_of (line ∷ lines) =
    let more = file_of lines in if is_last line then [] else c_string line ∷ more

abbrev pub is_full_upload : Instance → Bool
is_full_upload instance_data =
    is_command instance_data 1 (codes "full upload")
    || is_command instance_data 1 (codes "full_upload")

abbrev pub is_upload : Instance → Bool
is_upload instance_data =
    is_command instance_data 1 (codes "upload") || is_full_upload instance_data

abbrev pub is_download : Instance → Bool
is_download instance_data =
    is_command instance_data 1 (codes "download")
    || (is_command instance_data 1 (codes "full download")
        || is_command instance_data 1 (codes "full_download"))

module _ {m : Machine} where
  unfoldable pub upload_command : Instance → DeviceState → M m DeviceState
  upload_command instance_data d = do
    result ←
        upload
          (record {
            handle = instance_data.handle;
            blank = not (is_full_upload instance_data);
            id = instance_data.id;
            total_devices = instance_data.selected_devices;
            warn = false;
          })
          (file_of (drop 2 instance_data.commands))
    answer instance_data d 8
        (if ltb_ℤ result (pos 0) then codes " upload error]\r\n" else codes " upload success]\r\n")
    pure d

  -- The loop that sends the lines of a file.
  unfoldable pub send_lines : Instance → DeviceState → List (List ℕ) → M m (Unit {0})
  send_lines instance_data d [] = stuck
  send_lines instance_data d (line ∷ lines) =
      let c = get_or line 0 0 in
      elim (c == 0x0D || c == 0x0A) [
        | true ↦ pure tt
        | false ↦ do
          answer instance_data d 8 (codes " ")
          send instance_data.output line (length (c_string line) - 2)
          send_text instance_data.output (codes "]\r\n")
          delay 10
          send_lines instance_data d lines
      ]

  -- `commands[1]` is none of the names of upload here, so the download is never a full one.
  unfoldable pub download_command : Instance → DeviceState → M m DeviceState
  download_command instance_data d = do
    file ← download instance_data.handle (not (is_full_upload instance_data))
    send_lines instance_data d file
    pure d
