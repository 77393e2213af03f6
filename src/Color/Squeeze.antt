-- ===== src/Color/Squeeze.antt =====
-- A text without its spaces, and the spaces that it begins with.
use plasma_trim_cli.Base.{
  ℕ, suc, ◌+◌, ◌≤◌, ◌≡◌, refl, ◌≢◌, inl, inr, List, [], ◌∷◌, ◌++◌, arith, ◌==◌, if◌then◌else◌,
  Bool-cases, length,
}

-- A text without its spaces.
unfoldable pub squeeze : List ℕ → List ℕ
squeeze [] = []
squeeze (c ∷ cs) = if c == b' ' then squeeze cs else c ∷ squeeze cs

-- The spaces that a text begins with, and what follows them.
unfoldable pub lead : List ℕ → ℕ
lead [] = 0
lead (c ∷ cs) = if c == b' ' then suc (lead cs) else 0

unfoldable pub rest : List ℕ → List ℕ
rest [] = []
rest (c ∷ cs) = if c == b' ' then rest cs else c ∷ cs

unfoldable pub spaces : List ℕ → List ℕ
spaces [] = []
spaces (c ∷ cs) = if c == b' ' then c ∷ spaces cs else []

pub spaces-append-rest : (s : List ℕ) → spaces s ++ rest s ≡ s
unfolding spaces rest
spaces-append-rest [] = refl
spaces-append-rest (c ∷ cs) = ground (arith, spaces-append-rest cs)

pub length-spaces : (s : List ℕ) → length (spaces s) ≡ lead s
unfolding spaces lead
length-spaces [] = refl
length-spaces (c ∷ cs) = ground (arith, length-spaces cs)

pub length-rest : (s : List ℕ) → lead s + length (rest s) ≡ length s
unfolding lead rest
length-rest [] = omega arith
length-rest (c ∷ cs) = ground (arith, length-rest cs)

pub squeeze-rest : (s : List ℕ) → squeeze (rest s) ≡ squeeze s
unfolding squeeze rest
squeeze-rest [] = refl
squeeze-rest (c ∷ cs) = ground (arith, squeeze-rest cs)

pub rest-head : (s : List ℕ) {c : ℕ} {cs : List ℕ} → rest s ≡ c ∷ cs → c ≢ b' '
unfolding rest
rest-head [] h = λ e. cc
rest-head (x ∷ xs) h = elim (Bool-cases (x == b' ')) [
  | inl e ↦ rest-head xs (rw e at h)
  | inr e ↦ ground arith
]

pub length-squeeze : (s : List ℕ) → length (squeeze s) ≤ length s
unfolding squeeze
length-squeeze [] = omega arith
length-squeeze (c ∷ cs) = ground (arith, length-squeeze cs)
