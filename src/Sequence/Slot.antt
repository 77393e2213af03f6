-- ===== src/Sequence/Slot.antt =====
-- A slot that is downloaded and uploaded again, and the times of a slot.
use plasma_trim_cli.Base.{
  ℕ, ◌+◌, ◌-◌, ◌*◌, ◌/◌, ◌%◌, ◌≤◌, ◌<◌, ◌≡◌, refl, ap₂, ◌∙◌, ◌≢◌, ◌⊎◌, false, some, List, [], ◌∷◌,
  ◌++◌, arith, get_or, replicate, tabulate, tabulate_ext, IsByte, u8,
}
use plasma_trim_cli.Hex.{hex_digit}
use plasma_trim_cli.Decimal.Laws.{decimal_padded_two}
use plasma_trim_cli.Color.{make_color}
use plasma_trim_cli.Color.Digits.{digits_text, AllBytes, IsBytes, make_color-digits_text}
use plasma_trim_cli.Sequence.Line.{slot_line}
use plasma_trim_cli.Sequence.Upload.{UploadState, color_column, slot_report, times_byte}

-- What upload makes of the two characters that download prints for a byte of times: the byte itself
-- if both times are below 10.
pub times_byte-hex_digit :
    (hold fade : ℕ)
    → hold < 10
    → fade < 10
    → times_byte (hex_digit hold) (hex_digit fade) ≡ hold * 16 + fade
unfolding times_byte hex_digit
times_byte-hex_digit hold fade hh hf = ground arith

-- A time of 10 or more is printed as a letter, and upload takes that for another byte.
pub times_byte_letter :
    (hold fade : ℕ)
    → hold < 16
    → fade < 16
    → (10 ≤ hold) ⊎ (10 ≤ fade)
    → times_byte (hex_digit hold) (hex_digit fade) ≢ hold * 16 + fade
unfolding times_byte hex_digit
times_byte_letter hold fade hh hf h = ground arith

-- The bytes 2 to 13 of a report are the colour of its slot.
abbrev pub slot_color : List ℕ → ℕ → ℕ
slot_color cmd k = get_or cmd (k + 2) 0

-- A line of a slot below 100, by columns.
abbrev pub columns : ℕ → List ℕ → List ℕ
columns i cmd =
    b's'
    ∷ b'l'
    ∷ b'o'
    ∷ b't'
    ∷ b' '
    ∷ (i / 10 + 48)
    ∷ (i % 10 + 48)
    ∷ b' '
    ∷ hex_digit (get_or cmd 14 0 / 16)
    ∷ b' '
    ∷ hex_digit (get_or cmd 14 0 % 16)
    ∷ b' '
    ∷ b'-'
    ∷ b' '
    ∷ (digits_text false (slot_color cmd) ++ (13 ∷ 10 ∷ []))

pub slot_line-columns : (i : ℕ) (cmd : List ℕ) → i < 100 → slot_line i cmd ≡ columns i cmd
unfolding slot_line digits_text
slot_line-columns i cmd h = rw (decimal_padded_two i h)

-- The first column of colours is cut out of the line.
color_column-columns :
    (i : ℕ) (cmd : List ℕ) (u : UploadState)
    → u.offset ≡ 0
    → u.device_num ≡ 1
    → color_column (columns i cmd) u ≡ digits_text false (slot_color cmd) ++ (0 ∷ [])
unfolding color_column digits_text
color_column-columns i cmd u eo ed = rw (eo, ed)

times_columns :
    (i : ℕ) (cmd : List ℕ) (u : UploadState)
    → i < 100
    → IsByte (get_or cmd 14 0)
    → get_or cmd 14 0 / 16 < 10
    → get_or cmd 14 0 % 16 < 10
    → u.offset ≡ 0
    → times_byte
        (get_or (slot_line i cmd) (8 + u.offset) 0)
        (get_or (slot_line i cmd) (10 + u.offset) 0)
      ≡ get_or cmd 14 0
times_columns i cmd u h byte hold fade eo = rw (slot_line-columns i cmd h) (
    rw eo
      (times_byte-hex_digit (get_or cmd 14 0 / 16) (get_or cmd 14 0 % 16) hold fade ∙ omega arith))

slot_report-table :
    (line : List ℕ) (u : UploadState) (raw : List ℕ)
    → slot_report line u raw
      ≡ 0x06
        ∷ u8 (u.line_number + 512 - 3 - u.loop_start)
        ∷ (tabulate 12 0 (λ k. get_or raw k 0)
            ++ (times_byte (get_or line (8 + u.offset) 0) (get_or line (10 + u.offset) 0)
                ∷ replicate 17 0))
unfolding slot_report
slot_report-table line u raw = refl

-- The report that programs slot `i` with the colour and the times of the report `cmd`.
abbrev pub program_report : ℕ → List ℕ → List ℕ
program_report i cmd =
    0x06 ∷ i ∷ (tabulate 12 0 (slot_color cmd) ++ (get_or cmd 14 0 ∷ replicate 17 0))

-- What the upload of a line comes to: makeColor ends, and the report is this one.
pub record IsProgrammed (line : List ℕ) (u : UploadState) (report : List ℕ) : Type 0 where
  pub raw : List ℕ
  pub stripped : List ℕ
  pub converted : make_color (color_column line u) false ≡ some (raw, stripped)
  pub reported : slot_report line u raw ≡ report

-- The line that download prints for a slot below 76 is uploaded as the same colour and the same
-- times, if both times are below 10, at the place of the slot in a simple file.
pub slot_report-slot_line :
    (i : ℕ) (cmd : List ℕ) (u : UploadState)
    → i < 76
    → AllBytes (λ k. get_or cmd k 0)
    → get_or cmd 14 0 / 16 < 10
    → get_or cmd 14 0 % 16 < 10
    → u.offset ≡ 0
    → u.device_num ≡ 1
    → u.line_number ≡ u.loop_start + (3 + i)
    → IsProgrammed (slot_line i cmd) u (program_report i cmd)
slot_report-slot_line i cmd u hi bytes hold fade eo ed el =
    of_bytes (make_color-digits_text false (slot_color cmd) [] (λ k. bytes (k + 2)))
  where
    of_bytes :
        IsBytes false
          (slot_color cmd)
          (make_color (digits_text false (slot_color cmd) ++ (0 ∷ [])) false)
        → IsProgrammed (slot_line i cmd) u (program_report i cmd)
    of_bytes b = record {
      raw = b.buf;
      stripped = b.stripped;
      converted =
          rw (slot_line-columns i cmd (omega arith))
            (rw (color_column-columns i cmd u eo ed) b.returns);
      reported =
          slot_report-table (slot_line i cmd) u b.buf
          ∙ ap₂ (λ index t. 0x06 ∷ index ∷ t) (omega (arith, el))
              (ap₂ (λ colors times. colors ++ (times ∷ replicate 17 0))
                (tabulate_ext 12 0 (λ k. get_or b.buf k 0) (slot_color cmd)
                  (λ k p q. b.same k (omega arith)))
                (times_columns i cmd u (omega arith) (bytes 14) hold fade eo));
    }
