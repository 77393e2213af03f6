-- ===== src/Files/Laws.antt =====
-- fgets reads a file whole.
use plasma_trim_cli.Base.{
  ℕ, zero, suc, ◌≤◌, ◌<◌, ◌≡◌, refl, ap, ◌∙◌, inl, inr, List, [], ◌∷◌, ◌++◌, arith, ◌==◌,
  Bool-cases, length,
}
use plasma_trim_cli.Files.{take_line, lines_of, fgets_lines}

abbrev pub join_lines : List (List ℕ) → List ℕ
join_lines [] = []
join_lines (line ∷ lines) = line ++ join_lines lines

take_line-append :
    (room : ℕ) (bytes : List ℕ) → (take_line room bytes).0 ++ (take_line room bytes).1 ≡ bytes
unfolding take_line
take_line-append zero bytes = refl
take_line-append (suc room) [] = refl
take_line-append (suc room) (c ∷ cs) = elim (Bool-cases (c == 10)) [
  | inl e ↦ rw e refl
  | inr e ↦ rw e (ap (λ t. c ∷ t) (take_line-append room cs))
]

take_line-le : (room : ℕ) (bytes : List ℕ) → length (take_line room bytes).1 ≤ length bytes
unfolding take_line
take_line-le zero bytes = omega arith
take_line-le (suc room) [] = omega arith
take_line-le (suc room) (c ∷ cs) = ground (arith, take_line-le room cs)

take_line-lt :
    (room c : ℕ) (cs : List ℕ) → length (take_line (suc room) (c ∷ cs)).1 < suc (length cs)
unfolding take_line
take_line-lt room c cs = ground (arith, take_line-le room cs)

-- The lines put together are the file, with fuel for more rounds than there are bytes.
join_lines-lines_of :
    (fuel room : ℕ) (bytes : List ℕ)
    → length bytes < fuel
    → join_lines (lines_of fuel (suc room) bytes) ≡ bytes
unfolding lines_of
join_lines-lines_of zero room bytes h = elim h [ ]
join_lines-lines_of (suc fuel) room [] h = refl
join_lines-lines_of (suc fuel) room (c ∷ cs) h =
    ap (λ t. (take_line (suc room) (c ∷ cs)).0 ++ t)
      (join_lines-lines_of fuel room (take_line (suc room) (c ∷ cs)).1
        (omega (arith, take_line-lt room c cs)))
    ∙ take_line-append (suc room) (c ∷ cs)

pub join_lines-fgets_lines :
    (room : ℕ) (bytes : List ℕ) → join_lines (fgets_lines (suc room) bytes) ≡ bytes
join_lines-fgets_lines room bytes =
    join_lines-lines_of (suc (length bytes)) room bytes (omega arith)
