-- ===== src/Device.antt =====
-- The single commands to a PlasmaTrim of src/ptrim-lib.cc: every one sends a report of 32 bytes whose
-- first byte is its code, and reads what comes back.
pub mod Laws
pub mod Name
pub mod Serial
pub mod Info
use plasma_trim_cli.Base.{
  ℤ, pos, pos_part, ltb_ℤ, ℕ, ◌+◌, ◌-◌, ◌/◌, Bool, ◌&&◌, List, [], ◌∷◌, ◌++◌, ltb, leb, ◌==◌,
  if◌then◌else◌, length, get_or, set, replicate, for_by, codes, c_string,
}
use plasma_trim_cli.Hex.{high_digit, low_digit}
use plasma_trim_cli.Decimal.{decimal}
use plasma_trim_cli.Color.{print_color, make_human_color}
use plasma_trim_cli.Machine.{
  Machine, World, M, pure, ◌>>=◌, ◌>>◌, when, delay, printf, write_report, uninitialised, poll,
}

-- `memset (cmd, 0x00, 32); cmd[0] = code;`
abbrev pub command : ℕ → List ℕ
command code = set (replicate 32 0) 0 code

-- The end of getSerial: four bytes of a report, the last one first, as 8 digits and a terminator.
unfoldable pub print_serial : List ℕ → List ℕ
unfolding for_by
print_serial cmd =
    set
      (for_by 4 2 2
        (λ i buf.
          set (set buf (9 - i) (low_digit (get_or cmd (i / 2) 0))) (9 - (i + 1))
            (high_digit (get_or cmd (i / 2) 0)))
        (replicate 9 0))
      8 0

-- The end of getName: 26 bytes of a report. The 27th byte of `buf` is never written.
unfoldable pub print_name : List ℕ → ℕ → List ℕ
unfolding for_by
print_name cmd stale =
    for_by 26 0 1 (λ i buf. set buf i (get_or cmd (i + 1) 0)) (replicate 27 stale)

-- `name[i] >= 0x20` on a signed `char`.
abbrev pub is_printable : ℕ → Bool
is_printable c = leb 0x20 c && ltb c 128

-- One round of the loop of setName, on `offset` and `cmd`.
abbrev pub name_round : List ℕ → ℕ → ℕ × List ℕ → ℕ × List ℕ
name_round name i (offset, cmd) =
    let c = get_or name i 0 in
    if is_printable c then (offset, set cmd (i + 1 - offset) c) else (offset + 1, cmd)

-- The report of setName: at most 26 characters are looked at, and what is not printable is left out.
unfoldable pub name_report : List ℕ → List ℕ
unfolding for_by
name_report name =
    let len = length (c_string name) in
    (for_by (if ltb 26 len then 26 else len) 0 1 (name_round name) (0, command 0x08)).1

-- makeBrightness
unfoldable pub make_brightness : ℤ → ℕ
make_brightness b = if ltb_ℤ (pos 100) b then 100 else if ltb_ℤ b (pos 1) then 1 else pos_part b

-- The report of setColor: 24 bytes of colour and the brightness.
unfoldable pub color_report : List ℕ → ℕ → List ℕ
unfolding for_by
color_report color brightness =
    set (for_by 24 0 1 (λ i cmd. set cmd (i + 1) (get_or color i 0)) (command 0x00)) 25 brightness

-- The bounds of setActiveSlots.
unfoldable pub clamp_slots : ℕ → ℕ
clamp_slots slots = if ltb 76 slots then 76 else if ltb slots 1 then 1 else slots

module _ {m : Machine} where
  -- A report is sent, and the next one that comes is read over it.
  unfoldable pub query : ℕ → List ℕ → M m (List ℕ)
  query handle cmd = do write_report handle cmd; poll m.patience handle cmd

  -- readData: its `res` is not initialised, so it reads only if that happens to be 0.
  unfoldable pub read_data : ℕ → M m (Unit {0})
  read_data handle = do
    res ← uninitialised
    when (res == 0) (poll m.patience handle (replicate 32 0) >>= λ _. pure tt)

  -- A report is sent, and readData takes the answer.
  unfoldable pub send_command : ℕ → List ℕ → M m (Unit {0})
  unfolding read_data
  send_command handle cmd = do write_report handle cmd; read_data handle

  unfoldable pub get_serial : ℕ → M m (List ℕ)
  get_serial handle = do cmd ← query handle (command 0x0A); pure (print_serial cmd)

  -- start_comm
  unfoldable pub start_comm : ℕ → M m (Unit {0})
  start_comm handle = do get_serial handle >>= λ _. pure tt

  unfoldable pub get_name : ℕ → M m (List ℕ)
  get_name handle = do
    cmd ← query handle (command 0x09)
    stale ← uninitialised
    pure (print_name cmd stale)

  unfoldable pub set_name : ℕ → List ℕ → M m (Unit {0})
  set_name handle name = send_command handle (name_report name)

  unfoldable pub get_brightness : ℕ → M m ℕ
  get_brightness handle = do cmd ← query handle (command 0x0C); pure (get_or cmd 1 0)

  unfoldable pub set_brightness : ℕ → ℕ → M m (Unit {0})
  set_brightness handle brightness = send_command handle (set (command 0x0B) 1 brightness)

  unfoldable pub start : ℕ → M m (Unit {0})
  start handle = send_command handle (command 0x02)

  unfoldable pub stop : ℕ → M m (Unit {0})
  stop handle = send_command handle (command 0x03)

  unfoldable pub get_color : ℕ → M m (List ℕ)
  get_color handle = do cmd ← query handle (command 0x01); pure (print_color cmd)

  unfoldable pub set_color : ℕ → List ℕ → ℕ → M m (Unit {0})
  set_color handle color brightness = send_command handle (color_report color brightness)

  unfoldable pub get_active_slots : ℕ → M m ℕ
  get_active_slots handle = do cmd ← query handle (command 0x05); pure (get_or cmd 1 0)

  unfoldable pub set_active_slots : ℕ → ℕ → M m (Unit {0})
  set_active_slots handle slots = send_command handle (set (command 0x04) 1 (clamp_slots slots))

  -- showInfo
  unfoldable pub show_info : ℕ → M m (Unit {0})
  show_info handle = do
    name ← get_name handle
    printf (codes "Name: " ++ (c_string name ++ (13 ∷ 10 ∷ [])))
    serial ← get_serial handle
    printf (codes "Serial: " ++ (c_string serial ++ (13 ∷ 10 ∷ [])))
    brightness ← get_brightness handle
    printf (codes "Saved Brightness: " ++ (decimal brightness ++ (b'%' ∷ 13 ∷ 10 ∷ [])))
    color ← get_color handle
    printf (codes "Showing: " ++ (c_string (make_human_color color) ++ (13 ∷ 10 ∷ [])))
