-- ===== src/Ptrim/Main.antt =====
-- main of src/ptrim.cc.
use plasma_trim_cli.Base.{
  ℕ, suc, Bool, true, false, ◌&&◌, ◌||◌, none, some, List, [], ◌∷◌, ◌++◌, ltb, ◌==◌, if◌then◌else◌,
  length, get_or, codes, same_text,
}
use plasma_trim_cli.Decimal.{decimal}
use plasma_trim_cli.Machine.{Machine, M, ◌>>=◌, ◌>>◌, pure, printf, fprintf_stderr}
use plasma_trim_cli.Text.{ptrim_lib_version, ptrim_version}
use plasma_trim_cli.Sequence.{crlf}
use plasma_trim_cli.Files.{Disk}
use plasma_trim_cli.Help.{ptrim_help}
use plasma_trim_cli.Server.Monitor.{Bus}
use plasma_trim_cli.Ptrim.Open.{open_devices, find_serial, enumerate, is_list, open_list}
use plasma_trim_cli.Ptrim.Command.{argument, is_word, ptrim_command}

-- `argc > 1 && strcmp (argv[1], text) == 0`
abbrev pub is_first : List (List ℕ) → List ℕ → Bool
is_first argv text = same_text (argument argv 1) text

-- What the first half of main ends with: an exit code, or the devices that are open.
pub data Opened : Type 0 where
  exit : ℕ → Opened
  devices : List ℕ → Opened

abbrev pub found_text : ℕ → List ℕ
found_text n =
    if n == 1
    then codes "1 PlasmaTrim was found." ++ crlf
    else decimal n ++ (codes " PlasmaTrims were found." ++ crlf)

-- Several devices cannot be loaded from stdin.
abbrev pub is_shared_stdin : List (List ℕ) → List ℕ → Bool
is_shared_stdin argv handles =
    ltb 1 (length handles)
    && (length argv == 3 && (is_word argv (codes "upload") || is_word argv (codes "full_upload")))

module _ {m : Machine} (bus : Bus m) (disk : Disk m) (shade : ℕ → ℕ → ℕ → ℕ → ℕ) where
  -- A call without arguments lists all devices.
  unfoldable pub open_and_list : M m Opened
  open_and_list = do
    paths ← enumerate bus
    handles ← open_devices bus true 32 paths
    printf (found_text (length handles))
    pure (devices handles)

  unfoldable pub open_serial : List ℕ → M m Opened
  open_serial serial = do
    paths ← enumerate bus
    found ← find_serial bus serial paths
    elim found [
      | none ↦ do
        fprintf_stderr (codes "PlasmaTrim not found or could not be opened." ++ crlf)
        pure (exit 1)
      | some (handle, path) ↦ pure (devices (handle ∷ []))
    ]

  -- What argv[1] says.
  unfoldable pub open_selected : ℕ → (ℕ → ℕ) → List (List ℕ) → M m Opened
  open_selected columns stale_handle argv =
      if is_first argv (codes "--version") || is_first argv (codes "-v")
      then (do ptrim_lib_version columns; ptrim_version columns; pure (exit 0))
      else if is_first argv (codes "--help") || is_first argv (codes "-h")
      then (ptrim_help columns >> pure (exit 0))
      else if is_first argv (codes "all")
      then (do
        paths ← enumerate bus
        handles ← open_devices bus false 32 paths
        pure (devices handles))
      else if is_list (get_or argv 1 [])
      then (open_list bus stale_handle (get_or argv 1 []) >>= λ handles. pure (devices handles))
      else open_serial (argument argv 1)

  -- One command for each device, one after the other: the threads of the source do not wait for each
  -- other, but for those of streamData.
  unfoldable pub run_devices : ℕ → ℕ → ℕ → ℕ → List ℕ → List (List ℕ) → M m (List (List ℕ))
  run_devices columns rounds total_devices id [] argv = pure argv
  run_devices columns rounds total_devices id (handle ∷ handles) argv = do
    argv' ←
        ptrim_command bus disk shade columns rounds
          (record { handle = handle; id = id; total_devices = total_devices }) argv
    run_devices columns rounds total_devices (suc id) handles argv'

  unfoldable pub run_opened : ℕ → ℕ → List (List ℕ) → Opened → M m ℕ
  run_opened columns rounds argv (exit code) = pure code
  run_opened columns rounds argv (devices handles) =
      if is_shared_stdin argv handles
      then (do
        fprintf_stderr
            (codes "When loading multiple devices you must use a file, not stdin" ++ crlf)
        pure 1)
      else (run_devices columns rounds (length handles) 0 handles argv >>= λ argv'. pure 0)

  -- main; its result is the exit code. hid_exit at its end is not seen by anything.
  unfoldable pub ptrim_main : ℕ → ℕ → (ℕ → ℕ) → List (List ℕ) → M m ℕ
  ptrim_main columns rounds stale_handle argv = do
    opened ← (if length argv == 1 then open_and_list else open_selected columns stale_handle argv)
    run_opened columns rounds argv opened
