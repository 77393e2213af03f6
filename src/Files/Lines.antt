-- ===== src/Files/Lines.antt =====
-- fgets gives the lines of a text back.
use plasma_trim_cli.Base.{
  ℕ, zero, suc, ◌≤◌, ◌<◌, ◌≡◌, refl, ap, ◌≢◌, inl, inr, Bool, true, false, not, ◌&&◌, List, [], ◌∷◌,
  ◌++◌, arith, ◌==◌, if◌then◌else◌, Bool-cases, length, All, length-append,
}
use plasma_trim_cli.Files.{take_line, lines_of, fgets_lines}
use plasma_trim_cli.Files.Laws.{join_lines}

-- A line: its only end is its last character, and it holds no terminator.
abbrev pub ends_line : List ℕ → Bool
ends_line [] = false
ends_line (c ∷ cs) = if c == 10 then length cs == 0 else not (c == 0) && ends_line cs

-- A line that a buffer of so many characters takes whole.
abbrev pub IsTextLine : ℕ → List ℕ → Type 0
IsTextLine room line = (ends_line line ≡ true) × (length line ≤ room)

-- A character within a line.
abbrev pub IsInLine : ℕ → Type 0
IsInLine c = (c ≢ 0) × (c ≢ 10)

pub ends_line-append :
    (text line : List ℕ)
    → All IsInLine text
    → ends_line line ≡ true
    → ends_line (text ++ line) ≡ true
ends_line-append [] line h e = e
ends_line-append (c ∷ cs) line h e = ground (arith, ends_line-append cs line h.1 e)

pub no_length : (cs : List ℕ) → length cs == 0 ≡ true → cs ≡ []
no_length [] e = refl
no_length (c ∷ cs) e = absurd (ground arith)

take_line-line :
    (room : ℕ) (line behind : List ℕ)
    → ends_line line ≡ true
    → length line ≤ room
    → take_line room (line ++ behind) ≡ (line, behind)
unfolding take_line
take_line-line room [] behind e h = cc
take_line-line zero (c ∷ cs) behind e h = absurd (omega arith)
take_line-line (suc room) (c ∷ cs) behind e h = elim (Bool-cases (c == 10)) [
  | inl end ↦ let nothing : cs ≡ [] = no_length cs (ground arith) in rw (end, nothing) refl
  | inr more ↦ rw (more, take_line-line room cs behind (ground arith) (omega arith)) refl
]

lines_of-join_lines :
    (fuel room : ℕ) (lines : List (List ℕ))
    → All (IsTextLine room) lines
    → length (join_lines lines) < fuel
    → lines_of fuel room (join_lines lines) ≡ lines
unfolding lines_of
lines_of-join_lines zero room lines h few = absurd (omega arith)
lines_of-join_lines (suc fuel) room [] h few = refl
lines_of-join_lines (suc fuel) room ([] ∷ lines) h few = absurd (let e = h.0.0 in cc)
lines_of-join_lines (suc fuel) room ((c ∷ cs) ∷ lines) h few =
    rw (take_line-line room (c ∷ cs) (join_lines lines) h.0.0 h.0.1) (
      ap (λ t. (c ∷ cs) ∷ t)
        (lines_of-join_lines fuel room lines h.1
          (omega (arith, length-append {0} (c ∷ cs) (join_lines lines)))))

-- A text that consists of lines is read as these lines.
pub fgets_lines-join_lines :
    (room : ℕ) (lines : List (List ℕ))
    → All (IsTextLine room) lines
    → fgets_lines room (join_lines lines) ≡ lines
fgets_lines-join_lines room lines h = lines_of-join_lines _ room lines h (omega arith)
