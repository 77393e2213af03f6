-- ===== src/Sequence/Upload.antt =====
-- upload
use plasma_trim_cli.Base.{
  ℤ, pos, negsuc, ℕ, zero, suc, ◌+◌, ◌-◌, ◌*◌, Bool, true, false, ◌&&◌, ◌||◌, Option, none, some,
  List, [], ◌++◌, ltb, ◌==◌, if◌then◌else◌, get_or, set, replicate, for_by, u8, codes, c_string,
  same_text,
}
use plasma_trim_cli.Decimal.{decimal}
use plasma_trim_cli.Color.{make_color}
use plasma_trim_cli.Machine.{
  Machine, M, pure, stuck, or_stuck, ◌>>=◌, ◌>>◌, when, fprintf_stderr, uninitialised,
}
use plasma_trim_cli.Device.{
  command, send_command, start, stop, set_color, get_brightness, set_active_slots,
}
use plasma_trim_cli.Sequence.Line.{crlf, simple_version, multiple_version}

-- The variables of upload, all of them `unsigned char` but `multi_device`.
pub record UploadState : Type 0 where
  pub line_number : ℕ
  pub active_slots : ℕ
  pub slots_to_load : ℕ
  pub active_devices : ℕ
  pub device_num : ℕ
  pub loop_start : ℕ
  pub offset : ℕ
  pub multi_device : Bool

-- The values at the start; `active_slots` is not initialised.
abbrev pub upload_init : ℕ → UploadState
upload_init stale = record {
  line_number = 0;
  active_slots = u8 stale;
  slots_to_load = 76;
  active_devices = 0;
  device_num = 1;
  loop_start = 0;
  offset = 0;
  multi_device = false;
}

abbrev pub line_of : List (List ℕ) → ℕ → List ℕ
line_of file n = get_or file n []

-- A line that ends the loop.
abbrev pub is_last : List ℕ → Bool
is_last line = let c = get_or line 0 0 in c == 0x0D || (c == 0x0A || c == 0x00)

-- Line 1, the version: `none` for a format that is not known, else whether it is for several devices.
unfoldable pub read_version : List ℕ → Option Bool
read_version line =
    let text = c_string line in
    if same_text text (simple_version ++ crlf)
    then some false
    else if same_text text (multiple_version ++ crlf)
    then some true
    else if same_text text simple_version
    then some false
    else if same_text text multiple_version
    then some true
    else none

-- `((line[k] - 48) * 10) + line[k + 1] - 48`, cut to an `unsigned char`: 208 is -48 modulo 256.
abbrev pub two_digits : List ℕ → ℕ → ℕ
two_digits line k = u8 ((get_or line k 0 + 208) * 10 + (get_or line (k + 1) 0 + 208))

-- `while (deviceNum > activeDevices) deviceNum -= activeDevices;`
unfoldable pub wrap_device : ℕ → ℕ → ℕ → Option ℕ
wrap_device zero device_num active_devices = none
wrap_device (suc fuel) device_num active_devices =
    let more = wrap_device fuel (device_num - active_devices) active_devices in
    if ltb active_devices device_num then more else some device_num

-- `while (line[i] > 47 && line[i] < 58) { activeSlots *= 10; activeSlots += line[i] - 48; i++; }`
unfoldable pub read_slots : ℕ → List ℕ → ℕ → ℕ → Option ℕ
read_slots zero line i active_slots = none
read_slots (suc fuel) line i active_slots =
    let c = get_or line i 0 in
    let more = read_slots fuel line (u8 (i + 1)) (u8 (u8 (active_slots * 10) + (c - 48))) in
    if ltb 47 c && ltb c 58 then more else some active_slots

-- Line 2 as far as it is read: the number of slots and, for several devices, which of them this one
-- plays and where the loop starts.
unfoldable pub read_counts : List ℕ → ℕ → UploadState → Option UploadState
read_counts line id u =
    if u.multi_device
    then elim (wrap_device 256 (u8 (id + 1)) (two_digits line 35)) [
      | none ↦ none
      | some device_num ↦ elim (read_slots 512 line 80 u.active_slots) [
        | none ↦ none
        | some active_slots ↦ some (record u {
          active_devices = two_digits line 35;
          device_num = device_num;
          loop_start = u8 (two_digits line 52 + 255);
          active_slots = active_slots;
        })
      ]
    ]
    else some (record u { active_slots = two_digits line 14 })

-- `if (blank && (activeSlots - loopStart) < 76)`, on `int`; and no device is taken for one.
unfoldable pub limit_slots : Bool → UploadState → UploadState
limit_slots blank u = record u {
  slots_to_load =
      if blank && ltb u.active_slots (76 + u.loop_start)
      then u8 (u.active_slots + 256 - u.loop_start)
      else u.slots_to_load;
  active_devices = if u.active_devices == 0 then 1 else u.active_devices;
}

-- `(line[8 + offset] - 0x30 << 4) + line[10 + offset] - 0x30`, cut to a byte.
unfoldable pub times_byte : ℕ → ℕ → ℕ
times_byte hold fade = u8 ((hold + 208) * 16 + (fade + 208))

-- `color`: 24 characters of the line, from the column of the device on, and a terminator.
unfoldable pub color_column : List ℕ → UploadState → List ℕ
unfolding for_by
color_column line u =
    for_by 24 14 1
      (λ i color. set color (i - 14) (get_or line (i + 27 * (u.device_num - 1) + u.offset) 0))
      (replicate 25 0)

-- The report for the slot on a line, from the result of makeColor.
unfoldable pub slot_report : List ℕ → UploadState → List ℕ → List ℕ
unfolding for_by
slot_report line u raw_color =
    set
      (for_by 12 0 1 (λ i cmd. set cmd (i + 2) (get_or raw_color i 0))
        (set (command 0x06) 1 (u8 (u.line_number + 512 - 3 - u.loop_start))))
      14 (times_byte (get_or line (8 + u.offset) 0) (get_or line (10 + u.offset) 0))

-- `lineNumber > 2 + loopStart && lineNumber < 3 + slotsToLoad + loopStart`
abbrev pub is_slot_line : UploadState → Bool
is_slot_line u =
    ltb (2 + u.loop_start) u.line_number && ltb u.line_number (3 + u.slots_to_load + u.loop_start)

-- Slot 100 and later ones have one more digit in front.
abbrev pub shift_columns : UploadState → UploadState
shift_columns u = record u { offset = if u.line_number == 103 then 1 else u.offset }

abbrev pub next_line : UploadState → UploadState
next_line u = record u { line_number = u8 (u.line_number + 1) }

-- The notices to stderr behind line 2, with `warn`.
unfoldable pub upload_notices : ℕ → ℕ → UploadState → List ℕ
upload_notices id total_devices u =
    (if ltb (76 + u.loop_start) u.active_slots && id == 0
      then codes "Notice: More than 76 looping slots are in the sequence, "
        ++ (decimal (u.active_slots - u.loop_start - 76) ++ (codes " are being ignored." ++ crlf))
      else [])
    ++ (if id == u.active_devices
        then codes "Notice: This sequence is only written for "
          ++ (decimal u.active_devices
              ++ (codes " PlasmaTrims, you have "
                  ++ (decimal total_devices
                      ++ (codes " selected."
                          ++ (crlf
                              ++ (codes "        The remaining devices will be treated as repeats."
                                  ++ crlf))))))
        else if ltb total_devices u.active_devices && id + 1 == total_devices
        then codes "Notice: This sequence can utilize "
          ++ (decimal u.active_devices
              ++ (codes " PlasmaTrims, you only have "
                  ++ (decimal total_devices ++ (codes " selected." ++ crlf))))
        else [])

-- What upload is called with besides the device and the file.
pub record UploadCall : Type 0 where
  pub handle : ℕ
  pub blank : Bool
  pub id : ℕ
  pub total_devices : ℕ
  pub warn : Bool

-- "000" makes the device black while it is programmed.
abbrev pub black : List ℕ
black = replicate 3 b'0' ++ replicate 22 0

module _ {m : Machine} where
  -- The report of a slot goes out.
  unfoldable pub send_slot : ℕ → List ℕ → UploadState → M m UploadState
  send_slot handle line u = do
    raw ← or_stuck (make_color (color_column line u) false)
    send_command handle (slot_report line u raw.0)
    pure u

  -- Line 2.
  unfoldable pub settings_line : UploadCall → List ℕ → UploadState → M m UploadState
  settings_line call line u = do
    counted ← or_stuck (read_counts line call.id u)
    let limited = limit_slots call.blank counted
    when call.warn (fprintf_stderr (upload_notices call.id call.total_devices limited))
    pure limited

  -- One round of the loop of upload; `none` is its `return -1`.
  unfoldable pub upload_round : UploadCall → List ℕ → UploadState → M m (Option UploadState)
  upload_round call line u =
      if u.line_number == 1
      then elim (read_version line) [
        | none ↦ do
          when call.warn (fprintf_stderr (codes "Unknown file format." ++ crlf))
          pure none
        | some multi ↦ pure (some (next_line (record u { multi_device = u.multi_device || multi })))
      ]
      else if u.line_number == 2
      then (settings_line call line u >>= λ v. pure (some (next_line v)))
      else if is_slot_line u
      then (send_slot call.handle line (shift_columns u) >>= λ v. pure (some (next_line v)))
      else pure (some (next_line u))

  unfoldable pub upload_loop :
      ℕ → UploadCall → List (List ℕ) → UploadState → M m (Option UploadState)
  upload_loop zero call file u = stuck
  upload_loop (suc fuel) call file u = elim (is_last (line_of file u.line_number)) [
    | true ↦ pure (some u)
    | false ↦ upload_round call (line_of file u.line_number) u >>= λ r. elim r [
      | none ↦ pure none
      | some v ↦ upload_loop fuel call file v
    ]
  ]

  -- upload: it returns 0, or -1 for a file of an unknown format.
  unfoldable pub upload : UploadCall → List (List ℕ) → M m ℤ
  upload call file = do
    stale ← uninitialised
    stop call.handle
    color ← or_stuck (make_color black true)
    brightness ← get_brightness call.handle
    set_color call.handle color.0 brightness
    result ← upload_loop 256 call file (upload_init stale)
    elim result [
      | none ↦ pure (negsuc 0)
      | some u ↦ do
        set_active_slots call.handle (u8 (u.active_slots + 256 - u.loop_start))
        start call.handle
        pure (pos 0)
    ]
