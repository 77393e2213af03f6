-- ===== src/Stream/Prologue.antt =====
-- streamData reads the head of a file that download wrote.
use plasma_trim_cli.Base.{
  ℕ, suc, ◌≤◌, ◌<◌, ◌≡◌, refl, ◌∙◌, false, some, List, ◌∷◌, ◌++◌, arith, ◌==◌, length, drop,
  c_string, same_text,
}
use plasma_trim_cli.Decimal.Laws.{decimal_padded_two}
use plasma_trim_cli.Sequence.{crlf, title_line, simple_version, two_digits}
use plasma_trim_cli.Sequence.Whole.{settings_text}
use plasma_trim_cli.Stream.{
  StreamHead, stream_init, refill, stream_version, stream_counts, known, read_head,
}

settings_refilled :
    (n : ℕ) (behind : List ℕ) → n ≤ 76 → two_digits (settings_text n ++ (0 ∷ behind)) 14 ≡ n
settings_refilled n behind h = rw (decimal_padded_two n (omega arith)) (omega arith)

abbrev pub head_of : ℕ → StreamHead
head_of n = record stream_init { line_number = 3; active_slots = n }

counts_refilled :
    (id n : ℕ) (behind : List ℕ)
    → n ≤ 76
    → stream_counts id (settings_text n ++ (0 ∷ behind)) (record stream_init { line_number = 3 })
      ≡ some (head_of n)
unfolding stream_counts
counts_refilled id n behind h = rw (settings_refilled n behind h) refl

-- The buffer behind the head of a file.
abbrev pub head_buffer : ℕ → List ℕ → List ℕ
head_buffer n buffer =
    refill (settings_text n) (refill (simple_version ++ crlf) (refill (title_line ++ crlf) buffer))

title_read :
    (id : ℕ) (buffer : List ℕ) (lines : List (List ℕ))
    → read_head id stream_init buffer ((title_line ++ crlf) ∷ lines)
      ≡ read_head id
          (record stream_init { line_number = 1 })
          (refill (title_line ++ crlf) buffer)
          lines
unfolding read_head
title_read id buffer lines = refl

version_read :
    (id : ℕ) (buffer : List ℕ) (lines : List (List ℕ))
    → read_head id
        (record stream_init { line_number = 1 })
        buffer
        ((simple_version ++ crlf) ∷ lines)
      ≡ read_head id
          (record stream_init { line_number = 2 })
          (refill (simple_version ++ crlf) buffer)
          lines
unfolding read_head stream_version same_text c_string
version_read id buffer lines = refl

settings_read :
    (id n : ℕ) (buffer line : List ℕ) (lines : List (List ℕ))
    → 0 < n
    → n ≤ 76
    → read_head id (record stream_init { line_number = 2 }) buffer (settings_text n ∷ line ∷ lines)
      ≡ some (known (head_of n) (refill (settings_text n) buffer) (line ∷ lines))
unfolding read_head
settings_read id n buffer line lines some_slot small =
    let none_left : n == 0 ≡ false = ground arith in
    rw
      (
        counts_refilled id n (drop (suc (length (settings_text n))) buffer) small,
        read_head,
        none_left,
      )
      refl

pub head_read :
    (id n : ℕ) (buffer line : List ℕ) (lines : List (List ℕ))
    → 0 < n
    → n ≤ 76
    → read_head id stream_init buffer
        ((title_line ++ crlf) ∷ (simple_version ++ crlf) ∷ settings_text n ∷ line ∷ lines)
      ≡ some (known (head_of n) (head_buffer n buffer) (line ∷ lines))
head_read id n buffer line lines some_slot small =
    title_read id buffer _ ∙ version_read id _ _ ∙ settings_read id n _ line lines some_slot small
