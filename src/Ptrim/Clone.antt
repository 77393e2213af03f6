-- ===== src/Ptrim/Clone.antt =====
-- The file that download writes, and what upload makes of it.
use plasma_trim_cli.Base.{
  ℕ, zero, suc, ◌+◌, ◌-◌, ◌/◌, ◌%◌, ◌≤◌, ◌<◌, ◌≡◌, refl, ap₂, inl, inr, true, false, Option, some,
  List, [], ◌∷◌, ◌++◌, map, arith, ◌==◌, Bool-cases, length, get_or, drop, All, length-append,
  take_short, All-append, All-tabulate, codes, c_string,
}
use plasma_trim_cli.Hex.{hex_digit}
use plasma_trim_cli.Decimal.Laws.{decimal_padded_two}
use plasma_trim_cli.Color.Digits.{digits_text, digit_at}
use plasma_trim_cli.Machine.{Machine, World, pure}
use plasma_trim_cli.Machine.Laws.{Returned, Returned->>=, IsResponsive}
use plasma_trim_cli.Sequence.{crlf, slot_line, black_line, black_lines, upload, UploadCall}
use plasma_trim_cli.Sequence.Slot.{slot_line-columns, slot_color}
use plasma_trim_cli.Sequence.RoundTrip.{IsSlot, slot_lines}
use plasma_trim_cli.Sequence.Whole.{
  sequence_file, settings_text, length-slot_lines, length-black_lines,
}
use plasma_trim_cli.Sequence.Commands.{uploaded, upload-lines}
use plasma_trim_cli.Files.{Disk, content_of, fgets_lines, open_file}
use plasma_trim_cli.Files.Laws.{join_lines}
use plasma_trim_cli.Files.Lines.{
  ends_line, IsTextLine, IsInLine, no_length, ends_line-append, fgets_lines-join_lines,
}
use plasma_trim_cli.Ptrim.Command.{Task, file_memory, print_lines, upload_content, upload_file}

hex_digit-IsInLine : (n : ℕ) → IsInLine (hex_digit n)
unfolding hex_digit
hex_digit-IsInLine n = ground arith

digit_at-IsInLine : (b : ℕ → ℕ) (j : ℕ) → IsInLine (digit_at b j)
unfolding hex_digit
digit_at-IsInLine b j = ground arith

digits_text-IsInLine : (b : ℕ → ℕ) → All IsInLine (digits_text false b)
unfolding digits_text
digits_text-IsInLine b = All-tabulate IsInLine 24 0 (digit_at b) (λ j p q. digit_at-IsInLine b j)

two-IsInLine : (n : ℕ) → All IsInLine ((n / 10 + 48) ∷ (n % 10 + 48) ∷ [])
two-IsInLine n =
    (((λ e. omega arith), (λ e. omega arith)), (((λ e. omega arith), (λ e. omega arith)), tt))

space-IsInLine : IsInLine b' '
space-IsInLine = ((λ e. omega arith), (λ e. omega arith))

-- Each line of the file is a line for fgets.
slot_line-IsTextLine : (i : ℕ) (cmd : List ℕ) → i < 100 → IsTextLine 963 (slot_line i cmd)
unfolding digits_text
slot_line-IsTextLine i cmd h = rw (slot_line-columns i cmd h) (
  ends_line-append
      ((i / 10 + 48)
        ∷ (i % 10 + 48)
        ∷ b' '
        ∷ hex_digit (get_or cmd 14 0 / 16)
        ∷ b' '
        ∷ hex_digit (get_or cmd 14 0 % 16)
        ∷ [])
      (codes " - " ++ (digits_text false (slot_color cmd) ++ crlf))
      (
        (two-IsInLine i).0,
        (
          (two-IsInLine i).1.0,
          (space-IsInLine, (hex_digit-IsInLine _, (space-IsInLine, (hex_digit-IsInLine _, tt)))),
        ),
      )
      (ends_line-append (digits_text false (slot_color cmd)) crlf
        (digits_text-IsInLine (slot_color cmd)) refl),
  omega arith,
)

black_line-IsTextLine : (i : ℕ) → i < 100 → IsTextLine 963 (black_line i)
unfolding black_line
black_line-IsTextLine i h = rw (decimal_padded_two i h) (
  ends_line-append ((i / 10 + 48) ∷ (i % 10 + 48) ∷ [])
      (codes " 0 0 - 000000000000000000000000" ++ crlf) (two-IsInLine i) refl,
  omega arith,
)

settings_text-IsTextLine : (n : ℕ) → n ≤ 76 → IsTextLine 963 (settings_text n)
settings_text-IsTextLine n h =
    rw (decimal_padded_two n (omega arith)) (
      ends_line-append ((n / 10 + 48) ∷ (n % 10 + 48) ∷ []) crlf (two-IsInLine n) refl,
      omega arith,
    )

slot_lines-IsTextLine :
    (i : ℕ) (cmds : List (List ℕ)) → i + length cmds ≤ 76 → All (IsTextLine 963) (slot_lines i cmds)
slot_lines-IsTextLine i [] h = tt
slot_lines-IsTextLine i (cmd ∷ cmds) h =
    (slot_line-IsTextLine i cmd (omega arith), slot_lines-IsTextLine (suc i) cmds (omega arith))

black_lines-IsTextLine : (n i : ℕ) → n + i ≤ 76 → All (IsTextLine 963) (black_lines n i)
unfolding black_lines
black_lines-IsTextLine zero i h = tt
black_lines-IsTextLine (suc n) i h =
    (black_line-IsTextLine i (omega arith), black_lines-IsTextLine n (suc i) (omega arith))

sequence_file-IsTextLine :
    (cmds : List (List ℕ))
    → length cmds ≤ 76
    → All (IsTextLine 963) (sequence_file (length cmds) cmds)
sequence_file-IsTextLine cmds small =
    let n = length cmds in
    (
      (refl, omega arith),
      (
        (refl, omega arith),
        (
          settings_text-IsTextLine n small,
          All-append (IsTextLine 963) (slot_lines 0 cmds) _
              (slot_lines-IsTextLine 0 cmds (omega arith))
              (All-append (IsTextLine 963) (black_lines (76 - n) n) _
                (black_lines-IsTextLine (76 - n) n (omega arith)) ((refl, omega arith), tt)),
        ),
      ),
    )

length-sequence_file :
    (n : ℕ) (cmds : List (List ℕ)) → length cmds ≤ 76 → length (sequence_file n cmds) ≡ 80
length-sequence_file n cmds small =
    let k = length cmds in
    omega (
      arith,
      length-append (slot_lines 0 cmds) (black_lines (76 - k) k ++ (crlf ∷ [])),
      length-append (black_lines (76 - k) k) (crlf ∷ []),
      length-slot_lines 0 cmds,
      length-black_lines (76 - k) k,
    )

c_string-line : (line : List ℕ) → ends_line line ≡ true → c_string line ≡ line
unfolding c_string
c_string-line [] e = refl
c_string-line (c ∷ cs) e = elim (Bool-cases (c == 10)) [
  | inl end ↦ let nothing : cs ≡ [] = no_length cs (ground arith) in rw nothing (ground arith)
  | inr more ↦ ground (arith, c_string-line cs (ground arith))
]

map-c_string-lines :
    (room : ℕ) (lines : List (List ℕ)) → All (IsTextLine room) lines → map c_string lines ≡ lines
map-c_string-lines room [] h = refl
map-c_string-lines room (line ∷ lines) h =
    ap₂ ◌∷◌ (c_string-line line h.0.0) (map-c_string-lines room lines h.1)

print_lines-join_lines :
    (room : ℕ) (lines : List (List ℕ))
    → All (IsTextLine room) lines
    → print_lines lines ≡ join_lines lines
unfolding print_lines
print_lines-join_lines room [] h = refl
print_lines-join_lines room (line ∷ lines) h =
    ap₂ ◌++◌ (c_string-line line h.0.0) (print_lines-join_lines room lines h.1)

-- What is in `fileData` behind the printed lines of a file.
file_memory-print_lines :
    (lines stale : List (List ℕ))
    → All (IsTextLine 963) lines
    → length lines ≤ 1024
    → file_memory (fgets_lines 963 (print_lines lines)) stale ≡ lines ++ drop (length lines) stale
file_memory-print_lines lines stale h few =
    rw
      (
        print_lines-join_lines 963 lines h,
        fgets_lines-join_lines 963 lines h,
        take_short 1024 lines few,
        map-c_string-lines 963 lines h,
      )
      refl

module _ {m : Machine} (responsive : IsResponsive m) where
  upload_content-uploaded :
      (task : Task) (filename : List ℕ) (stale : List (List ℕ)) (content : Option (List ℕ))
      (cmds : List (List ℕ)) (w : World m)
      → content ≡ some (print_lines (sequence_file (length cmds) cmds))
      → length cmds ≤ 76
      → All IsSlot cmds
      → Returned
          (upload_content task filename true stale content w)
          (λ _ v. (b : ℕ) × (v.sent ≡ uploaded task.handle cmds b w.sent))
  unfolding upload_content
  upload_content-uploaded task filename stale content cmds w e small slots =
      let file = sequence_file (length cmds) cmds in
      rw
        (
          e,
          file_memory-print_lines file stale (sequence_file-IsTextLine cmds small)
              (omega (arith, length-sequence_file (length cmds) cmds small)),
        )
        (let call : UploadCall = record {
          handle = task.handle;
          blank = true;
          id = task.id;
          total_devices = task.total_devices;
          warn = true;
        } in
          Returned->>= (upload call (file ++ drop (length file) stale)) (λ _. pure tt) w _ _
            (upload-lines responsive call cmds (drop (length file) stale) w small slots refl)
            (λ r v (z, b, s). (b, s)))

  -- upload of ptrim, from a file that holds what ptrim's download prints for n ≤ 76 reports of slots with
  -- n active slots: if the devices answer and the reports hold bytes and times below 10, then it comes
  -- back. fgets has cut the text into the lines that it was printed from, and the device has been sent
  -- for each slot in turn the report with that slot's colour and times, among the commands of upload,
  -- whatever the memory behind the lines holds.
  pub upload_file-sequence_file :
      (disk : Disk m) (task : Task) (filename : List ℕ) (cmds : List (List ℕ)) (w : World m)
      → content_of disk filename w.outside ≡ some (print_lines (sequence_file (length cmds) cmds))
      → length cmds ≤ 76
      → All IsSlot cmds
      → Returned
          (upload_file disk task filename true w)
          (λ _ v. (b : ℕ) × (v.sent ≡ uploaded task.handle cmds b w.sent))
  unfolding upload_file open_file
  upload_file-sequence_file disk task filename cmds w e small slots =
      upload_content-uploaded task filename (disk.stale_lines w.outside) _ cmds w e small slots
