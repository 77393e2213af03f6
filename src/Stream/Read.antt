-- ===== src/Stream/Read.antt =====
-- streamData of src/ptrim-lib.cc reads a file.
use plasma_trim_cli.Base.{
  ℕ, suc, ◌+◌, ◌-◌, ◌*◌, ◌%◌, Bool, true, false, ◌&&◌, ◌||◌, Option, none, some, List, [], ◌∷◌,
  ◌++◌, ltb, ◌==◌, if◌then◌else◌, length, get_or, set, drop, replicate, for_by, u8, codes, c_string,
  same_text,
}
use plasma_trim_cli.Decimal.{decimal}
use plasma_trim_cli.Sequence.{
  crlf, simple_version, multiple_version, two_digits, wrap_device, read_slots,
}

-- What the first loop reads from the head of a file; `line_number` is an `unsigned char`.
pub record StreamHead : Type 0 where
  pub line_number : ℕ
  pub active_slots : ℕ
  pub active_devices : ℕ
  pub loop_start : ℕ
  pub device_num : ℕ
  pub multi_device : Bool

abbrev pub stream_init : StreamHead
stream_init = record {
  line_number = 0;
  active_slots = 0;
  active_devices = 0;
  loop_start = 0;
  device_num = 1;
  multi_device = false;
}

-- fgets into `line`: what was in the buffer behind the terminator stays there.
abbrev pub refill : List ℕ → List ℕ → List ℕ
refill line buffer = line ++ (0 ∷ drop (suc (length line)) buffer)

-- Line 2 of a file, the version: only with its line end.
unfoldable pub stream_version : List ℕ → Option Bool
stream_version line =
    let text = c_string line in
    if same_text text (multiple_version ++ crlf)
    then some true
    else if same_text text (simple_version ++ crlf)
    then some false
    else none

-- Line 3 of a file.
unfoldable pub stream_counts : ℕ → List ℕ → StreamHead → Option StreamHead
stream_counts id line h =
    if h.multi_device
    then elim (read_slots 512 line 80 h.active_slots) [
      | none ↦ none
      | some active_slots ↦ elim (wrap_device 256 (u8 (id + 1)) (two_digits line 35)) [
        | none ↦ none
        | some device_num ↦ some (record h {
          active_slots = active_slots;
          active_devices = two_digits line 35;
          device_num = device_num;
          loop_start = u8 (two_digits line 52 + 255);
        })
      ]
    ]
    else some (record h { active_slots = two_digits line 14 })

-- `fadeTime`, `holdTime` and `slot`, for each of the active slots.
pub record Slots : Type 0 where
  pub fade_time : List (List ℕ)
  pub hold_time : List (List ℕ)
  pub slot : List (List ℕ)

abbrev pub blank_slots : ℕ → Slots
blank_slots active_slots = record {
  fade_time = replicate active_slots (replicate 2 0);
  hold_time = replicate active_slots (replicate 2 0);
  slot = replicate active_slots (replicate 25 0);
}

-- The 24 characters of a slot, from the column of the device on.
unfoldable pub slot_column : List ℕ → ℕ → ℕ → List ℕ
unfolding for_by
slot_column line device_num offset =
    for_by 24 14 1
      (λ i slot. set slot (i - 14) (get_or line (i + 27 * (device_num - 1) + offset) 0))
      (replicate 25 0)

-- A line of the second loop, whose number is counted already: its colour and hold time are those of
-- its slot, its fade time that of the next one.
unfoldable pub read_slot : StreamHead → ℕ → List ℕ → Slots → Slots
read_slot h offset line s =
    let n = h.line_number in
    if ltb 3 n && ltb n (4 + h.active_slots)
    then record {
      slot = set s.slot (n - 4) (slot_column line h.device_num offset);
      fade_time =
          set s.fade_time (if n - 3 == h.active_slots then 0 else n - 3)
            (get_or line (10 + offset) 0 ∷ 0 ∷ []);
      hold_time = set s.hold_time (n - 4) (get_or line (8 + offset) 0 ∷ 0 ∷ []);
    }
    else s

abbrev pub count_line : StreamHead → StreamHead
count_line h = record h { line_number = u8 (h.line_number + 1) }

-- `while (knownType && fgets (line, sizeof line, file) != NULL)`
unfoldable pub read_slots_lines : StreamHead → ℕ → List ℕ → List (List ℕ) → Slots → Slots
read_slots_lines h offset buffer [] s = s
read_slots_lines h offset buffer (line ∷ lines) s =
    let h' = count_line h in
    let offset' = if ltb 103 h'.line_number then 1 else offset in
    let buffer' = refill line buffer in
    read_slots_lines h' offset' buffer' lines (read_slot h' offset' buffer' s)

-- The notices to stderr.
unfoldable pub stream_notices : ℕ → ℕ → ℕ → List ℕ
stream_notices id total_devices active_devices =
    if id == active_devices
    then codes "Notice: This sequence is only written for "
      ++ (decimal active_devices
          ++ (codes " PlasmaTrims, you have "
              ++ (decimal total_devices
                  ++ (codes " selected."
                      ++ (crlf
                          ++ (codes "        The remaining devices will be treated as repeats."
                              ++ crlf))))))
    else if ltb total_devices active_devices && id + 1 == total_devices
    then codes "Notice: This sequence can utilize "
      ++ (decimal active_devices
          ++ (codes " PlasmaTrims, you only have "
              ++ (decimal total_devices ++ (codes " selected." ++ crlf))))
    else []

-- What the first loop ends with: an unknown version, or the head, the buffer and the lines that are
-- left.
pub data Head : Type 0 where
  unknown : Head
  known : StreamHead → List ℕ → List (List ℕ) → Head

-- `while (activeSlots == 0 && knownType && fgets (…) != NULL)`
unfoldable pub read_head : ℕ → StreamHead → List ℕ → List (List ℕ) → Option Head
read_head id h buffer [] = some (known h buffer [])
read_head id h buffer (line ∷ lines) = elim (h.active_slots == 0) [
  | false ↦ some (known h buffer (line ∷ lines))
  | true ↦
      let buffer' = refill line buffer in
      let n = u8 (h.line_number + 1) in
      elim (n == 2) [
        | true ↦ elim (stream_version buffer') [
          | none ↦ some unknown
          | some multi ↦
              read_head id (record (count_line h) { multi_device = h.multi_device || multi })
                buffer' lines
        ]
        | false ↦ elim (n == 3) [
          | true ↦ elim (stream_counts id buffer' (count_line h)) [
            | none ↦ none
            | some h' ↦ read_head id h' buffer' lines
          ]
          | false ↦ read_head id (count_line h) buffer' lines
        ]
      ]
]

-- `i < loopStart+3 && i < activeSlots-3 && i % 5 == 0`, on `int`.
abbrev pub is_sync_slot : StreamHead → ℕ → Bool
is_sync_slot h i = ltb i (h.loop_start + 3) && (ltb (i + 3) h.active_slots && i % 5 == 0)
