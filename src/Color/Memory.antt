-- ===== src/Color/Memory.antt =====
-- makeColor strips a text of printable characters in place: what it leaves is such a text again.
use plasma_trim_cli.Base.{
  ℕ, zero, suc, ◌+◌, ◌-◌, ◌≤◌, ◌<◌, ◌≡◌, refl, ap, ◌∙◌, ◌≢◌, ◌⊎◌, inl, inr, Bool, true, Option,
  none, some, List, [], ◌∷◌, ◌++◌, arith, ltb, ◌==◌, Bool-cases, length, get_or, set, All, u8,
  c_string,
}
use plasma_trim_cli.Color.{skip_spaces, strip_spaces, standardize, pack_digits, make_color}
use plasma_trim_cli.Color.Format.{c_string_lem}

abbrev pub IsPrintable : ℕ → Type 0
IsPrintable c = (0x20 ≤ c) × (c < 128)

-- A terminator stands at `len`, and in front of it are printable characters and terminators.
abbrev IsMemory : ℕ → List ℕ → Type 0
IsMemory len [] = ⊥
IsMemory zero (c ∷ cs) = c ≡ 0
IsMemory (suc len) (c ∷ cs) = ((c ≡ 0) ⊎ IsPrintable c) × IsMemory len cs

text-IsMemory :
    (text tail : List ℕ) → All IsPrintable text → IsMemory (length text) (text ++ (0 ∷ tail))
text-IsMemory [] tail h = refl
text-IsMemory (c ∷ text) tail h = (inr h.0, text-IsMemory text tail h.1)

-- A text of printable characters with its terminator, at most so long.
pub record IsText (len : ℕ) (memory : List ℕ) : Type 0 where
  pub text : List ℕ
  pub tail : List ℕ
  pub stands : memory ≡ text ++ (0 ∷ tail)
  pub printable : All IsPrintable text
  pub fits : length text ≤ len

memory-IsText : (len : ℕ) (memory : List ℕ) → IsMemory len memory → IsText len memory
memory-IsText len [] h = absurd h
memory-IsText zero (c ∷ cs) h = record {
  text = [];
  tail = cs;
  stands = ap (λ x. x ∷ cs) h;
  printable = tt;
  fits = omega arith;
}
memory-IsText (suc len) (c ∷ cs) (inl e, h) = record {
  text = [];
  tail = cs;
  stands = ap (λ x. x ∷ cs) e;
  printable = tt;
  fits = omega arith;
}
memory-IsText (suc len) (c ∷ cs) (inr p, h) =
    let more = memory-IsText len cs h in
    record {
      text = c ∷ more.text;
      tail = more.tail;
      stands = ap (λ t. c ∷ t) more.stands;
      printable = (p, more.printable);
      fits = omega (arith, more.fits);
    }

get_or-IsMemory :
    (len : ℕ) (memory : List ℕ) (k : ℕ)
    → IsMemory len memory
    → k ≤ len
    → (get_or memory k 0 ≡ 0) ⊎ IsPrintable (get_or memory k 0)
get_or-IsMemory len [] k h le = absurd h
get_or-IsMemory zero (c ∷ cs) zero h le = inl h
get_or-IsMemory zero (c ∷ cs) (suc k) h le = absurd (omega (arith, le))
get_or-IsMemory (suc len) (c ∷ cs) zero h le = h.0
get_or-IsMemory (suc len) (c ∷ cs) (suc k) h le = get_or-IsMemory len cs k h.1 (omega (arith, le))

end-IsMemory : (len : ℕ) (memory : List ℕ) → IsMemory len memory → get_or memory len 0 ≡ 0
end-IsMemory len [] h = absurd h
end-IsMemory zero (c ∷ cs) h = h
end-IsMemory (suc len) (c ∷ cs) h = end-IsMemory len cs h.1

set-IsMemory :
    (len : ℕ) (memory : List ℕ) (i v : ℕ)
    → IsMemory len memory
    → i < len
    → (v ≡ 0) ⊎ IsPrintable v
    → IsMemory len (set memory i v)
set-IsMemory len [] i v h lt p = absurd h
set-IsMemory zero (c ∷ cs) i v h lt p = absurd (omega (arith, lt))
set-IsMemory (suc len) (c ∷ cs) zero v h lt p = (p, h.1)
set-IsMemory (suc len) (c ∷ cs) (suc i) v h lt p =
    (h.0, set-IsMemory len cs i v h.1 (omega (arith, lt)) p)

-- Spaces are skipped to the terminator at most.
Within : ℕ → ℕ → Option ℕ → Type 0
Within len i none = Unit
Within len i (some offset) = i + offset ≤ len

Within-none : (len i : ℕ) → Within len i none
unfolding Within
Within-none len i = tt

Within-some : (len i offset : ℕ) → i + offset ≤ len → Within len i (some offset)
unfolding Within
Within-some len i offset h = h

skip_spaces-Within :
    (fuel len i offset : ℕ) (memory : List ℕ)
    → IsMemory len memory
    → len < 256
    → i + offset ≤ len
    → Within len i (skip_spaces fuel memory i offset)
unfolding skip_spaces
skip_spaces-Within zero len i offset memory h short le = Within-none len i
skip_spaces-Within (suc fuel) len i offset memory h short le =
    elim (Bool-cases (get_or memory (i + offset) 0 == b' ')) [
      | inr e ↦ rw e (Within-some len i offset le)
      | inl e ↦
          let inside : i + offset < len = before e in
          let next : u8 (offset + 1) ≡ offset + 1 = omega (arith, inside, short) in
          rw (e, next)
            (skip_spaces-Within fuel len i (offset + 1) memory h short (omega (arith, inside)))
    ]
  where
    before : (get_or memory (i + offset) 0 == b' ') ≡ true → i + offset < len
    before e = elim (Bool-cases (i + offset == len)) [
      | inl at ↦ absurd (elsewhere (ground arith))
      | inr other ↦ ground (arith, le)
    ]
      where
        elsewhere : i + offset ≡ len → ⊥
        elsewhere at =
            let zero_there : get_or memory (i + offset) 0 ≡ 0 =
              ap (λ k. get_or memory k 0) at ∙ end-IsMemory len memory h in
            ground (arith, zero_there, e)

-- If the loop ends, it leaves such a memory.
Leaves : ℕ → Option (ℕ × List ℕ) → Type 0
Leaves len none = Unit
Leaves len (some (offset, memory)) = IsMemory len memory

Leaves-none : (len : ℕ) → Leaves len none
unfolding Leaves
Leaves-none len = tt

Leaves-some :
    (len offset : ℕ) (memory : List ℕ) → IsMemory len memory → Leaves len (some (offset, memory))
unfolding Leaves
Leaves-some len offset memory h = h

strip_spaces-Leaves :
    (fuel len i offset : ℕ) (memory : List ℕ)
    → IsMemory len memory
    → len < 256
    → Leaves len (strip_spaces fuel len i offset memory)
unfolding strip_spaces
strip_spaces-Leaves zero len i offset memory h short = Leaves-none len
strip_spaces-Leaves (suc fuel) len i offset memory h short =
    elim (Bool-cases (ltb (i + offset) len)) [
      | inr e ↦ rw (strip_spaces, e) (Leaves-some len offset memory h)
      | inl e ↦
          rw (strip_spaces, e)
            (round (λ memory' h'. λ o. strip_spaces-Leaves fuel len (u8 (i + 1)) o memory' h' short)
              (skip_spaces 256 memory i offset)
              (skip_spaces-Within 256 len i offset memory h short (ground arith)) (ground arith))
    ]
  where
    round :
        ((memory' : List ℕ)
          → IsMemory len memory'
          → (o : ℕ) → Leaves len (strip_spaces fuel len (u8 (i + 1)) o memory'))
        → (o : Option ℕ) → Within len i o
        → i < len
        → Leaves len (elim o [
          | none ↦ none
          | some offset' ↦
              strip_spaces fuel len
                (u8 (i + 1))
                offset'
                (set memory i (get_or memory (i + offset') 0))
        ])
    round rest none within lt = Leaves-none len
    round rest (some offset') within lt =
        rest (set memory i (get_or memory (i + offset') 0))
          (set-IsMemory len memory i _ h lt
            (get_or-IsMemory len memory (i + offset') h (unfold Within in within)))
          offset'

pub printable_nonzero : (text : List ℕ) → All IsPrintable text → All (λ c. c ≢ 0) text
printable_nonzero [] h = tt
printable_nonzero (c ∷ text) h = ((λ e. omega (arith, h.0, e)), printable_nonzero text h.1)

-- The text that makeColor leaves of a text below 256 printable characters is one of at most so many
-- printable characters.
pub make_color-IsText :
    (full : Bool) (text tail buf memory : List ℕ)
    → All IsPrintable text
    → length text < 256
    → make_color (text ++ (0 ∷ tail)) full ≡ some (buf, memory)
    → IsText (length text) memory
unfolding make_color
make_color-IsText full text tail buf memory printable short e =
    let color : List ℕ = text ++ (0 ∷ tail) in
    let same : c_string color ≡ text = c_string_lem text tail (printable_nonzero text printable) in
    go (length (c_string color)) (strip_spaces 256 (length (c_string color)) 0 0 color)
      (rw same
        (strip_spaces-Leaves 256 (length text) 0 0 color (text-IsMemory text tail printable) short))
      e
  where
    go :
        (n : ℕ) (r : Option (ℕ × List ℕ))
        → Leaves (length text) r
        → (elim r as (λ _. Option (List ℕ × List ℕ)) [
          | none ↦ none
          | some (offset, color) ↦ some (pack_digits (standardize (n - offset) full color), color)
        ])
          ≡ some (buf, memory)
        → IsText (length text) memory
    go n none h e' = cc
    go n (some (offset, color)) h e' =
        let kept : color ≡ memory = cc in
        memory-IsText (length text) memory (rw (← kept) (unfold Leaves in h))
