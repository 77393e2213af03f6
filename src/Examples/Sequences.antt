-- ===== src/Examples/Sequences.antt =====
-- Sequences to try the theorems on.
use plasma_trim_cli.Base.{
  pos, negsuc, ℕ, ◌+◌, ◌/◌, ◌%◌, ◌≡◌, refl, true, false, none, some, List, [], ◌∷◌, ◌++◌, arith,
  if◌then◌else◌, length, replicate, codes, c_string, same_text,
}
use plasma_trim_cli.Device.{get_active_slots}
use plasma_trim_cli.Machine.{World}
use plasma_trim_cli.Machine.Laws.{Returned}
use plasma_trim_cli.Machine.Queue.{echo, echo-IsResponsive, echo_world}
use plasma_trim_cli.Examples.Checks.{bytes, text}
use plasma_trim_cli.Color.Digits.{AllBytes-get_or}
use plasma_trim_cli.Color.Squeeze.{squeeze}
use plasma_trim_cli.Sequence.{
  UploadState, UploadCall, upload_init, upload, download, slot_line, read_version, title_line, crlf,
}
use plasma_trim_cli.Sequence.Slot.{IsProgrammed, program_report, slot_report-slot_line}
use plasma_trim_cli.Sequence.RoundTrip.{IsSlot}
use plasma_trim_cli.Sequence.Whole.{sequence_file}
use plasma_trim_cli.Sequence.Commands.{uploaded, prepared, upload-sequence_file}
use plasma_trim_cli.Sequence.Unknown.{upload-unknown_version}
use plasma_trim_cli.Sequence.{wrap_device}
use plasma_trim_cli.Sequence.Devices.{wrap_device-mod}
use plasma_trim_cli.Sequence.Fetched.{Answers, requested, download-sequence_file}
use plasma_trim_cli.Timing.{fade_pace, fade}
use plasma_trim_cli.Timing.Fade.{IsFaded, fade-IsFaded}

-- Two reports of slots.
abbrev warm : List ℕ
warm = 0x07 ∷ 0 ∷ 0xF8 ∷ 0x0F ∷ 0x80 ∷ replicate 9 0x11 ++ (0x35 ∷ replicate 17 0)

abbrev cold : List ℕ
cold = 0x07 ∷ 1 ∷ 0x00 ∷ 0xFF ∷ 0x08 ∷ replicate 9 0xF0 ++ (0x91 ∷ replicate 17 0)

warm-IsSlot : IsSlot warm
warm-IsSlot = record {
  bytes = AllBytes-get_or warm (bytes warm refl);
  hold = omega arith;
  fade = omega arith;
}

cold-IsSlot : IsSlot cold
cold-IsSlot = record {
  bytes = AllBytes-get_or cold (bytes cold refl);
  hold = omega arith;
  fade = omega arith;
}

abbrev loud : UploadCall
loud = record { handle = 3; blank = true; id = 0; total_devices = 1; warn = true }

upload-sequence_file_example :
    Returned
      (upload loud (sequence_file 2 (warm ∷ cold ∷ [])) echo_world)
      (λ r v. (r ≡ pos 0) × (b : ℕ) × (v.sent ≡ uploaded 3 (warm ∷ cold ∷ []) b []))
upload-sequence_file_example =
    upload-sequence_file echo-IsResponsive loud (warm ∷ cold ∷ []) echo_world (omega arith)
      (warm-IsSlot, (cold-IsSlot, tt)) refl

-- A file of a later format.
abbrev later : List (List ℕ)
later = (title_line ++ crlf) ∷ codes "Version: 2" ∷ []

upload-unknown_version_example :
    Returned
      (upload loud later echo_world)
      (λ r v. (r ≡ negsuc 0) × (b : ℕ) × (v.sent ≡ prepared 3 b []))
upload-unknown_version_example =
    upload-unknown_version echo-IsResponsive loud later echo_world refl refl later_lem
  where
    later_lem : read_version (codes "Version: 2") ≡ none
    later_lem = unfold read_version in unfold same_text in unfold c_string in refl

-- The variables of upload in front of the line of slot 1.
abbrev second : UploadState
second = record (upload_init 0) { line_number = 4 }

slot_report-slot_line_example : IsProgrammed (slot_line 1 cold) second (program_report 1 cold)
slot_report-slot_line_example =
    slot_report-slot_line 1 cold second (omega arith) (AllBytes-get_or cold (bytes cold refl))
      (omega arith) (omega arith) refl refl (omega arith)

download-sequence_file_example : Returned (download 3 false echo_world) (λ file v.
    (active : ℕ) × (x : World echo) × (cmds : List (List ℕ)) × (get_active_slots 3 echo_world
      ≡ some (active, x))
    × (length cmds ≡ (if false then active else 76))
    × Answers 3 0 cmds x v
    × (file ≡ sequence_file active cmds)
    × (v.sent ≡ requested 3 (length cmds) 0 ((3, 0x05 ∷ replicate 31 0) ∷ [])))
download-sequence_file_example = download-sequence_file echo-IsResponsive 3 false echo_world

-- Some arithmetic on `double`.
abbrev halfway : ℕ → ℕ → ℕ → ℕ → ℕ
halfway x y steps i = (x + y) / 2

fade-IsFaded_example :
    Returned (fade halfway 3 (codes "F 80" ++ (0 ∷ [])) (codes "2") 80 echo_world) (λ _ v.
      IsFaded echo-IsResponsive 3 80
        (squeeze (codes "F 80"))
        (fade_pace (c_string (codes "2")))
        echo_world
        v)
unfolding squeeze
fade-IsFaded_example =
    fade-IsFaded echo-IsResponsive halfway 3 80 (codes "F 80") [] (codes "2") echo_world
      (text (codes "F 80") refl) (omega arith) (omega arith)

-- Device 5 of a file for 3 devices plays the third column.
wrap_device-mod_example : wrap_device 256 (5 + 1) 3 ≡ some (5 % 3 + 1)
wrap_device-mod_example = wrap_device-mod 256 5 3 (omega arith) (omega arith)
