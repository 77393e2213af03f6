-- ===== src/Ptrim/Open.antt =====
-- The first half of main of src/ptrim.cc: which devices are opened.
use plasma_trim_cli.Base.{
  ℕ, zero, suc, ◌+◌, ◌-◌, ◌*◌, Bool, true, false, not, ◌&&◌, ◌||◌, Option, none, some, List, [],
  ◌∷◌, ◌++◌, ltb, leb, ◌==◌, if◌then◌else◌, length, get_or, set, replicate, u8, codes, c_string,
  same_text,
}
use mathlib.Core.List.{reverse}
use plasma_trim_cli.Machine.{Machine, M, ◌>>=◌, ◌>>◌, pure, stuck, when, printf, fprintf_stderr}
use plasma_trim_cli.Device.{get_serial, start_comm, show_info}
use plasma_trim_cli.Sequence.{crlf}
use plasma_trim_cli.Server.Monitor.{Bus, open_path, close_device}

-- The variables of the loop over a list of serial numbers. `i` and `offset` are `unsigned char`.
-- `device` is 14 bytes; `path_list` has the paths that were found, the last one first.
pub record ListState : Type 0 where
  pub i : ℕ
  pub offset : ℕ
  pub device : List ℕ
  pub path_list : List (List ℕ)

-- `device[i-offset] = argv[1][i]`
abbrev pub add_character : ℕ → ListState → ListState
add_character c s = record s {
  device = if ltb s.i s.offset then s.device else set s.device (s.i - s.offset) c;
  i = u8 (s.i + 1);
}

-- `offset = i+1`, and the device is reset.
abbrev pub next_device : ListState → List (List ℕ) → ListState
next_device s path_list = record {
  i = u8 (s.i + 1);
  offset = u8 (s.i + 1);
  device = replicate 14 0;
  path_list = path_list;
}

-- `device[7] != 0x00 && device[8] == 0x00`
abbrev pub is_serial : List ℕ → Bool
is_serial device = not (get_or device 7 0 == 0) && get_or device 8 0 == 0

abbrev pub not_found_text : List ℕ → List ℕ
not_found_text device =
    codes "PlasmaTrim " ++ (c_string device ++ (codes " not found or could not be opened." ++ crlf))

-- `argv[1][8] == ' ' || argv[1][12] == ' '`
abbrev pub is_list : List ℕ → Bool
is_list text = get_or text 8 0 == b' ' || get_or text 12 0 == b' '

module _ {m : Machine} (bus : Bus m) where
  -- `devs = hid_enumerate (0x26f3, 0x1000)`
  unfoldable pub enumerate : M m (List (List ℕ))
  enumerate w = some (bus.hid_enumerate w.outside, w)

  -- The loops over all devices, with the room that is left in `handle`; `show` is for a call without
  -- arguments, which prints what it finds. getSerial is called to clear the buffer.
  unfoldable pub open_devices : Bool → ℕ → List (List ℕ) → M m (List ℕ)
  open_devices show zero paths = pure []
  open_devices show (suc room) [] = pure []
  open_devices show (suc room) (path ∷ paths) = open_path bus path >>= λ opened. elim opened [
    | none ↦ do when show (printf crlf); open_devices show (suc room) paths
    | some handle ↦ do
      start_comm handle
      when show (show_info handle)
      when show (printf crlf)
      handles ← open_devices show room paths
      pure (handle ∷ handles)
  ]

  -- `while (cur_dev && !found)`: the first device with a serial number stays open.
  unfoldable pub find_serial : List ℕ → List (List ℕ) → M m (Option (ℕ × List ℕ))
  find_serial serial [] = pure none
  find_serial serial (path ∷ paths) = open_path bus path >>= λ opened. elim opened [
    | none ↦ find_serial serial paths
    | some handle ↦ do
      start_comm handle
      text ← get_serial handle
      if same_text serial (c_string text)
          then pure (some (handle, path))
          else (do close_device bus handle; find_serial serial paths)
  ]

  -- A serial number of the list: the path of its device, which is closed again.
  unfoldable pub find_path : List ℕ → List (List ℕ) → M m (List (List ℕ))
  find_path device path_list = do
    paths ← enumerate
    found ← find_serial (c_string device) paths
    elim found [
      | none ↦ do fprintf_stderr (not_found_text device); pure path_list
      | some (handle, path) ↦ do close_device bus handle; pure (path ∷ path_list)
    ]

  -- One round of `while (!last && paths_to_open < MAX_DEVICES)`.
  unfoldable pub list_round : ℕ → ListState → M m ListState
  list_round c s =
      if c == b' ' || c == 0
      then (if is_serial s.device
          then (find_path s.device s.path_list >>= λ path_list. pure (next_device s path_list))
          else pure (next_device s s.path_list))
      else pure (add_character c s)

  unfoldable pub list_loop : ℕ → List ℕ → ListState → M m (List (List ℕ))
  list_loop zero text s = stuck
  list_loop (suc fuel) text s = list_round (get_or text s.i 0) s >>= λ t.
      elim (get_or text s.i 0 == 0 || leb 32 (length t.path_list)) [
        | true ↦ pure (reverse t.path_list)
        | false ↦ list_loop fuel text t
      ]

  -- The paths are opened. The serial number is asked of the element of `handle` behind the one that
  -- was opened, which nobody initialised: `stale_handle`.
  unfoldable pub open_paths : (ℕ → ℕ) → ℕ → List (List ℕ) → M m (List ℕ)
  open_paths stale_handle number_devices [] = pure []
  open_paths stale_handle number_devices (path ∷ paths) = open_path bus path >>= λ opened.
      elim opened [
        | none ↦ do
          fprintf_stderr (codes "Could not open device at " ++ (path ++ crlf))
          open_paths stale_handle number_devices paths
        | some handle ↦ do
          start_comm (stale_handle (suc number_devices))
          handles ← open_paths stale_handle (suc number_devices) paths
          pure (handle ∷ handles)
      ]

  -- An `unsigned char` counts 256 rounds; each time round that ends finds one of 32 paths.
  unfoldable pub open_list : (ℕ → ℕ) → List ℕ → M m (List ℕ)
  open_list stale_handle text = do
    path_list ←
        list_loop (256 * 33) text
          (record { i = 0; offset = 0; device = replicate 14 0; path_list = [] })
    open_paths stale_handle 0 path_list
