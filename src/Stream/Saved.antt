-- ===== src/Stream/Saved.antt =====
-- streamData reads the slots of a file that download wrote.
use plasma_trim_cli.Base.{
  ℕ, suc, ◌+◌, ◌-◌, ◌/◌, ◌%◌, ◌≤◌, ◌<◌, ◌≡◌, refl, true, false, some, List, [], ◌∷◌, ◌++◌, map,
  arith, ltb, if◌then◌else◌, length, get_or, replicate, length-append, length-replicate, u8,
}
use plasma_trim_cli.Hex.{hex_digit}
use plasma_trim_cli.Color.Digits.{digits_text}
use plasma_trim_cli.Sequence.{crlf, slot_line, black_lines}
use plasma_trim_cli.Sequence.Slot.{slot_line-columns, slot_color}
use plasma_trim_cli.Sequence.RoundTrip.{slot_lines}
use plasma_trim_cli.Sequence.Whole.{sequence_file, length-black_lines}
use plasma_trim_cli.Stream.{
  StreamHead, stream_init, refill, Slots, blank_slots, slot_column, read_slot, count_line,
  read_slots_lines, known, read_head,
}
use plasma_trim_cli.Stream.Array.{
  set_at, set_at-whole, IsSpread-here, next_place, IsSpread-next_place,
}
use plasma_trim_cli.Stream.Prologue.{head_of, head_buffer, head_read}

-- What a slot of the file is read as: the digits of its colour, and its times.
abbrev pub slot_text : List ℕ → List ℕ
slot_text cmd = digits_text false (slot_color cmd) ++ (0 ∷ [])

abbrev pub hold_text : List ℕ → List ℕ
hold_text cmd = hex_digit (get_or cmd 14 0 / 16) ∷ 0 ∷ []

abbrev pub fade_text : List ℕ → List ℕ
fade_text cmd = hex_digit (get_or cmd 14 0 % 16) ∷ 0 ∷ []

-- The slots after the lines of these reports, from slot `i` of `n` on.
abbrev put_slots : ℕ → ℕ → List (List ℕ) → Slots → Slots
put_slots n i cmds s = record {
  fade_time = set_at (next_place n) i (map fade_text cmds) s.fade_time;
  hold_time = set_at (λ j. j) i (map hold_text cmds) s.hold_time;
  slot = set_at (λ j. j) i (map slot_text cmds) s.slot;
}

-- The head of a file for one device, in front of the line of slot `i`.
record IsAt (n i : ℕ) (h : StreamHead) : Type 0 where
  pub at : h.line_number ≡ 3 + i
  pub active : h.active_slots ≡ n
  pub first : h.device_num ≡ 1

slot_column-slot_line :
    (i : ℕ) (cmd behind : List ℕ)
    → i < 100
    → slot_column (slot_line i cmd ++ (0 ∷ behind)) 1 0 ≡ slot_text cmd
unfolding slot_column digits_text
slot_column-slot_line i cmd behind h = rw (slot_line-columns i cmd h) refl

hold_column :
    (i : ℕ) (cmd behind : List ℕ)
    → i < 100
    → get_or (slot_line i cmd ++ (0 ∷ behind)) 8 0 ≡ hex_digit (get_or cmd 14 0 / 16)
hold_column i cmd behind h = rw (slot_line-columns i cmd h) refl

fade_column :
    (i : ℕ) (cmd behind : List ℕ)
    → i < 100
    → get_or (slot_line i cmd ++ (0 ∷ behind)) 10 0 ≡ hex_digit (get_or cmd 14 0 % 16)
fade_column i cmd behind h = rw (slot_line-columns i cmd h) refl

read_slot-slot_line :
    (n i : ℕ) (cmd behind : List ℕ) (h : StreamHead) (s : Slots)
    → i < n
    → n ≤ 76
    → IsAt n (suc i) h
    → read_slot h 0 (slot_line i cmd ++ (0 ∷ behind)) s ≡ put_slots n i (cmd ∷ []) s
unfolding read_slot
read_slot-slot_line n i cmd behind h s lt small at =
    let above : ltb 3 h.line_number ≡ true = ground (arith, at.at) in
    let below : ltb h.line_number (4 + h.active_slots) ≡ true = ground (arith, at.at, at.active) in
    let next : h.line_number - 3 ≡ suc i = omega (arith, at.at) in
    let here : h.line_number - 4 ≡ i = omega (arith, at.at) in
    let line : i < 100 = omega arith in
    rw
      (
        above,
        below,
        next,
        here,
        at.active,
        at.first,
        hold_column i cmd behind line,
        fade_column i cmd behind line,
        slot_column-slot_line i cmd behind line,
      )
      refl

read_slot_behind :
    (n i offset : ℕ) (line : List ℕ) (h : StreamHead) (s : Slots)
    → n ≤ i
    → h.line_number ≡ 4 + i
    → h.active_slots ≡ n
    → read_slot h offset line s ≡ s
unfolding read_slot
read_slot_behind n i offset line h s le at active =
    let above : ltb 3 h.line_number ≡ true = ground (arith, at) in
    let below : ltb h.line_number (4 + h.active_slots) ≡ false = ground (arith, at, active) in
    rw (above, below) refl

-- The lines behind the slots change nothing.
lines_behind :
    (lines : List (List ℕ)) (n i offset : ℕ) (buffer : List ℕ) (h : StreamHead) (s : Slots)
    → n ≤ i
    → 3 + i + length lines < 256
    → h.line_number ≡ 3 + i
    → h.active_slots ≡ n
    → read_slots_lines h offset buffer lines s ≡ s
unfolding read_slots_lines
lines_behind [] n i offset buffer h s le few at active = refl
lines_behind (line ∷ lines) n i offset buffer h s le few at active =
    let offset' = if ltb 103 (u8 (h.line_number + 1)) then 1 else offset in
    let counted : u8 (h.line_number + 1) ≡ 4 + i = omega (arith, at) in
    rw (read_slot_behind n i offset' (refill line buffer) (count_line h) s le counted active) (
      lines_behind lines n (suc i) offset' (refill line buffer) (count_line h) s (omega arith)
        (omega arith) (omega (arith, counted)) active)

-- The lines of the slots, and what is behind them.
lines_read :
    (cmds : List (List ℕ)) (n i : ℕ) (behind : List (List ℕ)) (buffer : List ℕ) (h : StreamHead)
    (s : Slots)
    → i + length cmds ≡ n
    → n ≤ 76
    → 3 + n + length behind < 256
    → IsAt n i h
    → read_slots_lines h 0 buffer (slot_lines i cmds ++ behind) s ≡ put_slots n i cmds s
unfolding read_slots_lines
lines_read [] n i behind buffer h s whole small few at =
    lines_behind behind n i 0 buffer h s (omega arith) (omega arith) at.at at.active
lines_read (cmd ∷ cmds) n i behind buffer h s whole small few at =
    let near : ltb 103 (u8 (h.line_number + 1)) ≡ false = ground (arith, at.at) in
    let at' : IsAt n (suc i) (count_line h) = record {
      at = omega (arith, at.at);
      active = at.active;
      first = at.first;
    } in
    rw
      (
        near,
        read_slot-slot_line n i cmd _ (count_line h) s (omega arith) small at',
        read_slots_lines,
      )
      (lines_read cmds n (suc i) behind (refill (slot_line i cmd) buffer) (count_line h)
        (put_slots n i (cmd ∷ []) s) (omega arith) small few at')

-- Slots as they were saved from reports: each has the digits of its colour and its hold time; its fade
-- time stands at the slot behind it, that of the last slot at the first.
pub record IsStreamed (cmds : List (List ℕ)) (s : Slots) : Type 0 where
  pub slot : (i : ℕ) → i < length cmds → get_or s.slot i [] ≡ slot_text (get_or cmds i [])
  pub hold : (i : ℕ) → i < length cmds → get_or s.hold_time i [] ≡ hold_text (get_or cmds i [])
  pub fade :
      (i : ℕ)
      → i < length cmds
      → get_or s.fade_time (next_place (length cmds) i) [] ≡ fade_text (get_or cmds i [])

put_slots-IsStreamed :
    (cmds : List (List ℕ))
    → IsStreamed cmds (put_slots (length cmds) 0 cmds (blank_slots (length cmds)))
put_slots-IsStreamed cmds =
    let n = length cmds in
    record {
      slot = λ i h.
          set_at-whole (λ j. j) slot_text i cmds _ (IsSpread-here n) h
            (rw (length-replicate {A = List ℕ} n (replicate {A = ℕ} 25 0)) h);
      hold = λ i h.
          set_at-whole (λ j. j) hold_text i cmds _ (IsSpread-here n) h
            (rw (length-replicate {A = List ℕ} n (replicate {A = ℕ} 2 0)) h);
      fade = λ i h.
          set_at-whole (next_place n) fade_text i cmds _ (IsSpread-next_place n) h
            (rw (length-replicate {A = List ℕ} n (replicate {A = ℕ} 2 0)) (ground arith));
    }

-- streamData reads the file that download prints for 1 to 76 reports of slots, with as many active
-- slots, as these slots: its first loop stops behind the head of the file with the number of active
-- slots, and its second loop stores for each slot the digits of its colour, its hold time, and its fade
-- time at the slot behind it, that of the last slot at the first. The device is any of those selected.
pub read_slots_lines-sequence_file :
    (id : ℕ) (buffer : List ℕ) (cmds : List (List ℕ))
    → 0 < length cmds
    → length cmds ≤ 76
    → (buffer' : List ℕ) × (lines : List (List ℕ)) × (read_head id stream_init buffer
          (sequence_file (length cmds) cmds)
        ≡ some (known (head_of (length cmds)) buffer' lines))
      × IsStreamed cmds
          (read_slots_lines (head_of (length cmds)) 0 buffer' lines (blank_slots (length cmds)))
read_slots_lines-sequence_file id buffer [] some_slot small = absurd (omega arith)
read_slots_lines-sequence_file id buffer (cmd ∷ cmds) some_slot small =
    let n = suc (length cmds) in
    let behind = black_lines (76 - n) n ++ (crlf ∷ []) in
    (
      head_buffer n buffer,
      slot_lines 0 (cmd ∷ cmds) ++ behind,
      head_read id n buffer (slot_line 0 cmd) (slot_lines 1 cmds ++ behind) some_slot small,
      rw
          (lines_read (cmd ∷ cmds) n 0 behind (head_buffer n buffer) (head_of n) (blank_slots n)
            (omega arith) small
            (omega (
              arith,
              length-append (black_lines (76 - n) n) (crlf ∷ []),
              length-black_lines (76 - n) n,
            ))
            (record { at = refl; active = refl; first = refl }))
          (put_slots-IsStreamed (cmd ∷ cmds)),
    )
