-- ===== src/Examples/Programs.antt =====
-- Files for the programs to try the theorems on.
use plasma_trim_cli.Examples.Outside.{two_lines, disk}
use plasma_trim_cli.Base.{
  ℕ, zero, suc, ◌<◌, ◌≡◌, refl, inl, inr, Bool, true, false, ◌&&◌, ◌||◌, none, some, List, [], ◌∷◌,
  ◌++◌, map, arith, leb, ◌==◌, Bool-cases, replicate, codes, c_string, same_text,
}
use plasma_trim_cli.Machine.Laws.{Returned}
use plasma_trim_cli.Machine.Queue.{echo, echo-IsResponsive, echo_world}
use plasma_trim_cli.Examples.Checks.{bytes, text}
use plasma_trim_cli.Examples.Servers.{one_left, halfway}
use plasma_trim_cli.Hex.Laws.{IsHex}
use plasma_trim_cli.Color.{make_color}
use plasma_trim_cli.Sequence.{
  UploadState, upload_init, upload_loop, simple_version, line_of, read_version, color_column,
}
use plasma_trim_cli.Sequence.Endless.{IsLong, upload_loop-endless}
use plasma_trim_cli.Files.{Disk}
use plasma_trim_cli.Files.Laws.{join_lines}
use plasma_trim_cli.Client.{send_file}
use plasma_trim_cli.Client.Speech.{terminated, spoken}
use plasma_trim_cli.Client.File.{send_file-whole}
use plasma_trim_cli.Color.Digits.{AllBytes-get_or}
use plasma_trim_cli.Sequence.RoundTrip.{IsSlot}
use plasma_trim_cli.Sequence.Whole.{sequence_file}
use plasma_trim_cli.Sequence.Commands.{uploaded}
use plasma_trim_cli.Ptrim.Command.{Task, print_lines, upload_file}
use plasma_trim_cli.Ptrim.Clone.{upload_file-sequence_file}
use plasma_trim_cli.Stream.Prologue.{head_of}
use plasma_trim_cli.Stream.Saved.{IsStreamed, read_slots_lines-sequence_file}
use plasma_trim_cli.Device.{command}
use plasma_trim_cli.Ptrim.Main.{ptrim_main}
use plasma_trim_cli.Ptrim.All.{call_all, ptrim_main-Commanded}
use plasma_trim_cli.Stream.{
  stream_init, blank_slots, known, read_head, read_slots_lines, Slots, slot_column, play_slot,
}
use plasma_trim_cli.Stream.Shown.{column_digit}
use plasma_trim_cli.Stream.Played.{IsPlayed, play_slot-IsPlayed}

send_file-whole_example :
    (lines : List (List ℕ)) × (join_lines lines ≡ two_lines)
    × Returned
        (send_file disk (codes "my.ptSeq") 5 echo_world)
        (λ _ v. v.replies ≡ spoken 5 (map terminated lines) [])
unfolding same_text
send_file-whole_example =
    send_file-whole disk (codes "my.ptSeq") 5 two_lines echo_world refl (text two_lines refl)

-- A slot for the first device: a line of upload, and how it was read.
abbrev slot_line_text : List ℕ
slot_line_text = codes "slot 00 1 2 - 0123456789abcdefFEDCBA98\n"

abbrev at_slot : UploadState
at_slot = record (upload_init 0) { line_number = 4; device_num = 1; offset = 0 }

abbrev read_slots : Slots
read_slots = record {
  fade_time = (codes "2" ++ (0 ∷ [])) ∷ [];
  hold_time = (codes "1" ++ (0 ∷ [])) ∷ [];
  slot = slot_column slot_line_text 1 0 ∷ [];
}

abbrev is_hex : ℕ → Bool
is_hex c = (leb 48 c && leb c 57) || ((leb 65 c && leb c 70) || (leb 97 c && leb c 102))

is_hex-IsHex : (c : ℕ) → is_hex c ≡ true → IsHex c
is_hex-IsHex c h = ground arith

abbrev every : ℕ → (ℕ → Bool) → Bool
every zero f = true
every (suc n) f = f n && every n f

every_lem : (n : ℕ) (f : ℕ → Bool) → every n f ≡ true → (k : ℕ) → k < n → f k ≡ true
every_lem zero f e k h = absurd (omega arith)
every_lem (suc n) f e k h = elim (Bool-cases (k == n)) [
  | inl same ↦ let eq : k ≡ n = ground arith in rw eq (ground arith)
  | inr other ↦ every_lem n f (ground arith) k (ground arith)
]

play_slot-IsPlayed_example :
    (stored : List ℕ) × (stripped : List ℕ) × (make_color
        (color_column slot_line_text at_slot)
        false
      ≡ some (stored, stripped))
    × Returned
        (play_slot halfway 3 80 read_slots 0 echo_world)
        (λ _ v. IsPlayed 3 80 (codes "2" ++ (0 ∷ [])) stored echo_world v)
play_slot-IsPlayed_example =
    play_slot-IsPlayed echo-IsResponsive halfway 3 80 slot_line_text at_slot read_slots 0 echo_world
      hex refl
  where
    hex : (k : ℕ) → k < 24 → IsHex (column_digit slot_line_text 1 0 k)
    hex k h =
        is_hex-IsHex _ (every_lem 24 (λ j. is_hex (column_digit slot_line_text 1 0 j)) refl k h)

-- 256 lines that name the format.
abbrev long_file : List (List ℕ)
long_file = replicate 256 simple_version

replicate-line_of :
    (count n : ℕ) (line : List ℕ) → n < count → line_of (replicate count line) n ≡ line
replicate-line_of zero n line h = absurd (omega arith)
replicate-line_of (suc count) zero line h = refl
replicate-line_of (suc count) (suc n) line h = replicate-line_of count n line (omega arith)

long_file-IsLong : IsLong long_file
unfolding read_version same_text c_string
long_file-IsLong = record {
  lines = λ n h. rw (replicate-line_of 256 n simple_version h) refl;
  multi = false;
  version = refl;
}

upload_loop-endless_example :
    upload_loop 1000
      (record { handle = 3; blank = true; id = 0; total_devices = 1; warn = true })
      long_file
      (upload_init 0)
      echo_world
    ≡ none
upload_loop-endless_example =
    upload_loop-endless 1000 _ long_file (upload_init 0) echo_world long_file-IsLong (omega arith)

-- A disk on which any file is what download prints for one slot.
abbrev one_slot : List ℕ
one_slot = 0x07 ∷ 0 ∷ 0xF8 ∷ 0x0F ∷ 0x80 ∷ replicate 9 0x11 ++ (0x35 ∷ replicate 17 0)

one_slot-IsSlot : IsSlot one_slot
one_slot-IsSlot = record {
  bytes = AllBytes-get_or one_slot (bytes one_slot refl);
  hold = omega arith;
  fade = omega arith;
}

abbrev saved : Disk echo
saved = record {
  read_file = λ name waiting. some (print_lines (sequence_file 1 (one_slot ∷ [])));
  read_stdin = λ waiting. [];
  write_file = λ name content waiting. some waiting;
  stale_lines = λ waiting. codes "slot" ∷ codes "stale" ∷ [];
}

abbrev task : Task
task = record { handle = 3; id = 0; total_devices = 1 }

upload_file-sequence_file_example :
    Returned
      (upload_file saved task (codes "my.ptSeq") true echo_world)
      (λ _ v. (b : ℕ) × (v.sent ≡ uploaded 3 (one_slot ∷ []) b []))
unfolding same_text
upload_file-sequence_file_example =
    upload_file-sequence_file echo-IsResponsive saved task (codes "my.ptSeq") (one_slot ∷ [])
      echo_world refl (omega arith) (one_slot-IsSlot, tt)

read_slots_lines-sequence_file_example :
    (buffer' : List ℕ) × (lines : List (List ℕ)) × (read_head 0 stream_init []
        (sequence_file 1 (one_slot ∷ []))
      ≡ some (known (head_of 1) buffer' lines))
    × IsStreamed (one_slot ∷ []) (read_slots_lines (head_of 1) 0 buffer' lines (blank_slots 1))
read_slots_lines-sequence_file_example =
    read_slots_lines-sequence_file 0 [] (one_slot ∷ []) (omega arith) (omega arith)

ptrim_main-Commanded_example :
    Returned
      (ptrim_main one_left disk halfway 80 0 (λ n. 0) (call_all [] (codes "start")) echo_world)
      (λ code v. (code ≡ 0) × (v.sent ≡ (9, command 0x02) ∷ (9, command 0x0A) ∷ []))
    × Returned
        (ptrim_main one_left disk halfway 80 0 (λ n. 0) (call_all [] (codes "stop")) echo_world)
        (λ code v. (code ≡ 0) × (v.sent ≡ (9, command 0x03) ∷ (9, command 0x0A) ∷ []))
ptrim_main-Commanded_example =
    ptrim_main-Commanded echo-IsResponsive one_left (λ path. some 9) (λ path o. refl) disk halfway
      80 0 (λ n. 0) [] echo_world
