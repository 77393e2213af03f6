-- ===== src/Ptrim/Command.antt =====
-- runCommand of src/ptrim.cc, and its upload and download of files.
use plasma_trim_cli.Base.{
  ℕ, ◌-◌, Bool, true, false, ◌&&◌, Option, none, some, List, [], ◌∷◌, ◌++◌, map, ltb, ◌==◌,
  if◌then◌else◌, length, get_or, set, take, drop, codes, c_string, same_text,
}
use plasma_trim_cli.Decimal.{atoi, decimal}
use plasma_trim_cli.Color.{make_color, make_human_color}
use plasma_trim_cli.Machine.{Machine, M, ◌>>=◌, ◌>>◌, pure, stuck, or_stuck, printf}
use plasma_trim_cli.Device.{
  make_brightness, start, stop, set_name, get_name, set_brightness, get_brightness, set_color,
  get_color, show_info,
}
use plasma_trim_cli.Sequence.{crlf, upload, download}
use plasma_trim_cli.Timing.{fade}
use plasma_trim_cli.Stream.{stream_data}
use plasma_trim_cli.Files.{Disk, fgets_lines, open_file, save_file}
use plasma_trim_cli.Help.{ptrim_help}
use plasma_trim_cli.Server.Monitor.{Bus, close_device}

-- arg_struct, less `argv`, which is passed on: `argc` is its length, and makeColor and download write
-- to its texts.
pub record Task : Type 0 where
  pub handle : ℕ
  pub id : ℕ
  pub total_devices : ℕ

abbrev pub argument : List (List ℕ) → ℕ → List ℕ
argument argv i = c_string (get_or argv i [])

-- `strcmp (argv[2], text) == 0`
abbrev pub is_word : List (List ℕ) → List ℕ → Bool
is_word argv text = same_text (argument argv 2) text

-- `argc > i`
abbrev pub has_argument : List (List ℕ) → ℕ → Bool
has_argument argv i = ltb i (length argv)

-- `makeBrightness (atoi (argv[i]))`
abbrev pub brightness_argument : List (List ℕ) → ℕ → ℕ
brightness_argument argv i = make_brightness (atoi (argument argv i))

abbrev pub extension : List ℕ
extension = codes ".ptSeq"

-- The last 6 characters of a longer name are compared with the extension; without it, it is appended.
unfoldable pub with_extension : List ℕ → List ℕ
with_extension filename =
    if ltb 6 (length filename) && same_text (drop (length filename - 6) filename) extension
    then filename
    else filename ++ extension

-- The lines of a file in `fileData`, and what is in the lines behind them.
abbrev pub file_memory : List (List ℕ) → List (List ℕ) → List (List ℕ)
file_memory lines stale =
    let kept = take 1024 lines in map c_string kept ++ drop (length kept) stale

-- All lines of `fileData`, one after the other.
unfoldable pub print_lines : List (List ℕ) → List ℕ
print_lines [] = []
print_lines (line ∷ lines) = c_string line ++ print_lines lines

module _ {m : Machine} where
  -- What upload does with the file that it has opened; `stale` is the memory of `fileData`.
  unfoldable pub upload_content :
      Task → List ℕ → Bool → List (List ℕ) → Option (List ℕ) → M m (Unit {0})
  upload_content task filename blank stale none =
      printf (filename ++ (codes " did not open." ++ crlf))
  upload_content task filename blank stale (some bytes) =
      upload
        (record {
          handle = task.handle;
          blank = blank;
          id = task.id;
          total_devices = task.total_devices;
          warn = true;
        })
        (file_memory (fgets_lines 963 bytes) stale)
      >>= λ _. pure tt

module _ {m : Machine} (disk : Disk m) where
  -- upload of a file: at most 1024 lines, of fewer than 964 bytes each.
  unfoldable pub upload_file : Task → List ℕ → Bool → M m (Unit {0})
  upload_file task filename blank w =
      (open_file disk filename >>= upload_content task filename blank (disk.stale_lines w.outside))
        w

  -- download to a file or to stdout. It returns what `filename` is afterwards: the extension is
  -- appended in place.
  unfoldable pub download_file : ℕ → List ℕ → Bool → M m (List ℕ)
  unfolding print_lines
  download_file handle filename blank =
      if same_text filename (codes "stdout")
      then (do lines ← download handle blank; printf (print_lines lines); pure filename)
      else (do
        lines ← download handle blank
        save_file disk (with_extension filename) (print_lines lines)
        pure (with_extension filename))

  -- download and full_download, whose file may be given.
  unfoldable pub download_argument : ℕ → List (List ℕ) → Bool → M m (List (List ℕ))
  download_argument handle argv blank =
      if has_argument argv 3
      then (do filename ← download_file handle (argument argv 3) blank; pure (set argv 3 filename))
      else (download_file handle (codes "stdout") blank >>= λ _. pure argv)

  unfoldable pub upload_argument : Task → List (List ℕ) → Bool → M m (Unit {0})
  upload_argument task argv blank =
      upload_file task (if has_argument argv 3 then argument argv 3 else codes "stdin") blank

module _ {m : Machine} where
  unfoldable pub name_argument : ℕ → List (List ℕ) → M m (Unit {0})
  name_argument handle argv =
      if has_argument argv 3
      then set_name handle (get_or argv 3 [])
      else (do name ← get_name handle; printf (c_string name ++ crlf))

  unfoldable pub brightness_arguments : ℕ → List (List ℕ) → M m (Unit {0})
  brightness_arguments handle argv =
      if has_argument argv 3
      then set_brightness handle (brightness_argument argv 3)
      else (do brightness ← get_brightness handle; printf (decimal brightness ++ crlf))

  -- `makeBrightness (atoi (argv[i]))` if it is given, else the saved brightness.
  unfoldable pub brightness_or_saved : ℕ → List (List ℕ) → ℕ → M m ℕ
  brightness_or_saved handle argv i =
      if has_argument argv i then pure (brightness_argument argv i) else get_brightness handle

  -- makeColor strips the spaces of argv[3] where it stands.
  unfoldable pub color_arguments : ℕ → List (List ℕ) → M m (List (List ℕ))
  color_arguments handle argv =
      if has_argument argv 3
      then (do
        brightness ← brightness_or_saved handle argv 4
        color ← or_stuck (make_color (get_or argv 3 []) true)
        set_color handle color.0 brightness
        pure (set argv 3 color.1))
      else (do
        color ← get_color handle
        printf (c_string (make_human_color color) ++ crlf)
        pure argv)

  -- Both arguments are read without a look at their number.
  unfoldable pub fade_arguments : (ℕ → ℕ → ℕ → ℕ → ℕ) → ℕ → List (List ℕ) → M m (List (List ℕ))
  fade_arguments shade handle argv =
      if has_argument argv 4
      then (do
        brightness ← brightness_or_saved handle argv 5
        fade shade handle (get_or argv 3 []) (get_or argv 4 []) brightness
        color ← or_stuck (make_color (get_or argv 3 []) true)
        pure (set argv 3 color.1))
      else stuck

module _ {m : Machine} (bus : Bus m) (disk : Disk m) (shade : ℕ → ℕ → ℕ → ℕ → ℕ) where
  -- `rounds` are those of the endless loop of streamData, `columns` is the width of the terminal.
  unfoldable pub stream_arguments : ℕ → Task → List (List ℕ) → M m (Unit {0})
  stream_arguments rounds task argv =
      if has_argument argv 3
      then (do
        brightness ← brightness_or_saved task.handle argv 4
        stream_data disk shade rounds task.handle (argument argv 3) brightness task.id
            task.total_devices 0)
      else stuck

  -- A command with its word, argv[2].
  unfoldable pub word_command : ℕ → ℕ → Task → List (List ℕ) → M m (List (List ℕ))
  word_command columns rounds task argv =
      if is_word argv (codes "name")
      then (name_argument task.handle argv >> pure argv)
      else if is_word argv (codes "brightness")
      then (brightness_arguments task.handle argv >> pure argv)
      else if is_word argv (codes "start")
      then (start task.handle >> pure argv)
      else if is_word argv (codes "stop")
      then (stop task.handle >> pure argv)
      else if is_word argv (codes "color")
      then color_arguments task.handle argv
      else if is_word argv (codes "download")
      then download_argument disk task.handle argv true
      else if is_word argv (codes "full_download")
      then download_argument disk task.handle argv false
      else if is_word argv (codes "upload")
      then (upload_argument disk task argv true >> pure argv)
      else if is_word argv (codes "full_upload")
      then (upload_argument disk task argv false >> pure argv)
      else if is_word argv (codes "stream")
      then (stream_arguments rounds task argv >> pure argv)
      else if is_word argv (codes "fade")
      then fade_arguments shade task.handle argv
      else (ptrim_help columns >> pure argv)

  -- runCommand: it ends with hid_close, and returns the arguments as they are then.
  unfoldable pub ptrim_command : ℕ → ℕ → Task → List (List ℕ) → M m (List (List ℕ))
  ptrim_command columns rounds task argv = do
    argv' ←
        (if length argv == 2
          then (show_info task.handle >> pure argv)
          else if ltb 2 (length argv)
          then word_command columns rounds task argv
          else pure argv)
    close_device bus task.handle
    pure argv'
