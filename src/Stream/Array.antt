-- ===== src/Stream/Array.antt =====
-- Consecutive values that are written to an array, each at a place of its own.
use plasma_trim_cli.Base.{
  ℕ, zero, suc, ◌+◌, ◌-◌, ◌≤◌, ◌<◌, ◌≡◌, refl, ap, ◌∙◌, ◌≢◌, inl, inr, List, [], ◌∷◌, map, arith,
  ◌==◌, if◌then◌else◌, Bool-cases, length, get_or, set, length-set, get_or-set_self, get_or-set_ne,
}

-- Value `j` of `vs`, counted from `i` on, is written at `p j`.
abbrev pub set_at : (ℕ → ℕ) → ℕ → List (List ℕ) → List (List ℕ) → List (List ℕ)
set_at p i [] xs = xs
set_at p i (v ∷ vs) xs = set_at p (suc i) vs (set xs (p i) v)

-- No two values are written at the same place.
abbrev pub IsSpread : (ℕ → ℕ) → ℕ → Type 0
IsSpread p n = (j k : ℕ) → j < n → k < n → p j ≡ p k → j ≡ k

set_at_other :
    (p : ℕ → ℕ) (i q : ℕ) (vs xs : List (List ℕ))
    → ((j : ℕ) → i ≤ j → j < i + length vs → p j ≢ q)
    → get_or (set_at p i vs xs) q [] ≡ get_or xs q []
set_at_other p i q [] xs h = refl
set_at_other p i q (v ∷ vs) xs h =
    set_at_other p (suc i) q vs (set xs (p i) v) (λ j a b. h j (omega arith) (omega arith))
    ∙ get_or-set_ne xs (p i) q v [] (h i (omega arith) (omega arith))

pub get_or-set_at :
    (p : ℕ → ℕ) (n i j : ℕ) (vs xs : List (List ℕ))
    → IsSpread p n
    → i + length vs ≤ n
    → i ≤ j
    → j < i + length vs
    → p j < length xs
    → get_or (set_at p i vs xs) (p j) [] ≡ get_or vs (j - i) []
get_or-set_at p n i j [] xs spread fits low high room = absurd (omega arith)
get_or-set_at p n i j (v ∷ vs) xs spread fits low high room = elim (Bool-cases (i == j)) [
  | inl same ↦
      let e : j ≡ i = ground arith in
      let first : j - i ≡ 0 = omega (arith, e) in
      rw first (
        rw e (
          set_at_other p (suc i) (p i) vs (set xs (p i) v) (λ k a b eq.
            absurd (let bad = spread k i (omega arith) (omega arith) eq in omega arith))
          ∙ get_or-set_self xs (p i) v [] (rw (← e) room)))
  | inr other ↦
      let later : suc i ≤ j = ground arith in
      let e : j - i ≡ suc (j - suc i) = omega arith in
      rw e (
        get_or-set_at p n (suc i) j vs (set xs (p i) v) spread (omega arith) later (omega arith)
          (rw (length-set xs (p i) v) room))
]

pub IsSpread-here : (n : ℕ) → IsSpread (λ j. j) n
IsSpread-here n j k h h' e = e

-- The place of the slot behind slot `j` of `n`.
abbrev pub next_place : ℕ → ℕ → ℕ
next_place n j = if suc j == n then 0 else suc j

pub IsSpread-next_place : (n : ℕ) → IsSpread (next_place n) n
IsSpread-next_place n j k h h' e = ground arith

pub get_or-map :
    (f : List ℕ → List ℕ) (i : ℕ) (xs : List (List ℕ))
    → i < length xs
    → get_or (map f xs) i [] ≡ f (get_or xs i [])
get_or-map f i [] h = absurd (omega arith)
get_or-map f zero (x ∷ xs) h = refl
get_or-map f (suc i) (x ∷ xs) h = get_or-map f i xs (omega arith)

pub length-map : (f : List ℕ → List ℕ) (xs : List (List ℕ)) → length (map f xs) ≡ length xs
length-map f [] = refl
length-map f (x ∷ xs) = ap suc (length-map f xs)

-- An array of as many places holds all values.
pub set_at-whole :
    (p : ℕ → ℕ) (f : List ℕ → List ℕ) (i : ℕ) (cmds xs : List (List ℕ))
    → IsSpread p (length cmds)
    → i < length cmds
    → p i < length xs
    → get_or (set_at p 0 (map f cmds) xs) (p i) [] ≡ f (get_or cmds i [])
set_at-whole p f i cmds xs spread h room =
    let same : i - 0 ≡ i = omega arith in
    get_or-set_at p (length cmds) 0 i (map f cmds) xs spread (omega (arith, length-map f cmds))
      (omega arith) (omega (arith, length-map f cmds)) room
    ∙ ap (λ k. get_or (map f cmds) k []) same
    ∙ get_or-map f i cmds h
