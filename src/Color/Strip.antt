-- ===== src/Color/Strip.antt =====
-- What the in-place loop of makeColor does: the characters that are no spaces move to the front.
use plasma_trim_cli.Base.{
  ℕ, zero, suc, ◌+◌, ◌≤◌, ◌<◌, ◌≡◌, refl, sym, ap, ◌∙◌, ◌≢◌, ◌⊎◌, inl, inr, Option, some, List, [],
  ◌∷◌, ◌++◌, append_assoc, arith, length, get_or, set, length-append, get_or-append_here,
  set-append_here,
}
use mathlib.Core.Path.{◌≡⟨◌⟩◌, ◌∎}
use plasma_trim_cli.Color.{skip_spaces, strip_spaces}
use plasma_trim_cli.Color.Squeeze.{
  squeeze, lead, rest, spaces, spaces-append-rest, length-spaces, length-rest, squeeze-rest,
  rest-head,
}

skip_spaces_lem :
    (fuel : ℕ) (pre todo tail : List ℕ) (i offset : ℕ)
    → i + offset ≡ length pre
    → length todo < fuel
    → offset + length todo < 256
    → skip_spaces fuel (pre ++ (todo ++ (0 ∷ tail))) i offset ≡ some (offset + lead todo)
unfolding skip_spaces lead
skip_spaces_lem zero pre todo tail i offset e h k = absurd (omega arith)
skip_spaces_lem (suc fuel) pre [] tail i offset e h k =
    rw (get_or-append_here pre tail 0 0 (i + offset) e) (ap some (omega arith))
skip_spaces_lem (suc fuel) pre (c ∷ cs) tail i offset e h k = ground (
  arith,
  get_or-append_here pre (cs ++ (0 ∷ tail)) c 0 (i + offset) e,
  append_assoc pre (c ∷ []) (cs ++ (0 ∷ tail)),
  length-append pre (c ∷ []),
  skip_spaces_lem fuel (pre ++ (c ∷ [])) cs tail i (offset + 1),
)

-- What a write of `c` in front of a gap leaves of the gap, once the character `c` behind it is read.
shift : List ℕ → ℕ → List ℕ
shift [] c = []
shift (g ∷ gs) c = gs ++ (c ∷ [])

length-shift : (gap : List ℕ) (c : ℕ) → length (shift gap c) ≡ length gap
unfolding shift
length-shift [] c = refl
length-shift (g ∷ gs) c = omega (arith, length-append gs (c ∷ []))

set-shift :
    (front gap tail : List ℕ) (c i : ℕ)
    → i ≡ length front
    → set (front ++ (gap ++ (c ∷ tail))) i c ≡ (front ++ (c ∷ [])) ++ (shift gap c ++ tail)
unfolding shift
set-shift front [] tail c i e =
    set-append_here front tail c c i e ∙ sym (append_assoc front (c ∷ []) tail)
set-shift front (g ∷ gs) tail c i e =
    set-append_here front (gs ++ (c ∷ tail)) g c i e ∙ simp append_assoc

skipped :
    (front gap todo tail : List ℕ) (i offset : ℕ)
    → i ≡ length front
    → offset ≡ length gap
    → i + offset + length todo < 256
    → skip_spaces 256 (front ++ (gap ++ (todo ++ (0 ∷ tail)))) i offset ≡ some (offset + lead todo)
skipped front gap todo tail i offset ei eo fits =
    rw (← append_assoc front gap (todo ++ (0 ∷ tail))) (
      skip_spaces_lem 256 (front ++ gap) todo tail i offset (omega (arith, length-append front gap))
        (omega arith) (omega arith))

behind_spaces :
    (front gap todo tail : List ℕ) (c : ℕ) (tail' : List ℕ)
    → rest todo ++ (0 ∷ tail) ≡ c ∷ tail'
    → front ++ (gap ++ (todo ++ (0 ∷ tail))) ≡ front ++ ((gap ++ spaces todo) ++ (c ∷ tail'))
behind_spaces front gap todo tail c tail' er =
    front ++ (gap ++ (todo ++ (0 ∷ tail)))
    ≡⟨ ap (λ t. front ++ (gap ++ (t ++ (0 ∷ tail)))) (sym (spaces-append-rest todo)) ⟩
      front ++ (gap ++ ((spaces todo ++ rest todo) ++ (0 ∷ tail)))
    ≡⟨ (simp append_assoc) ⟩ front ++ ((gap ++ spaces todo) ++ (rest todo ++ (0 ∷ tail)))
    ≡⟨ ap (λ t. front ++ ((gap ++ spaces todo) ++ t)) er ⟩
      front ++ ((gap ++ spaces todo) ++ (c ∷ tail')) ∎

get_or-behind :
    (front gap tail : List ℕ) (c i : ℕ)
    → i ≡ length front + length gap
    → get_or (front ++ (gap ++ (c ∷ tail))) i 0 ≡ c
get_or-behind front gap tail c i e =
    rw (← append_assoc front gap (c ∷ tail))
      (get_or-append_here (front ++ gap) tail c 0 i (omega (arith, length-append front gap)))

strip_spaces-suc :
    (fuel len i offset : ℕ) (mem : List ℕ) (offset' : ℕ)
    → i + offset < len
    → i + 1 < 256
    → skip_spaces 256 mem i offset ≡ some offset'
    → strip_spaces (suc fuel) len i offset mem
      ≡ strip_spaces fuel len (i + 1) offset' (set mem i (get_or mem (i + offset') 0))
unfolding strip_spaces
strip_spaces-suc fuel len i offset mem offset' lt fits e = ground arith

pub strip_spaces_end :
    (fuel len i offset : ℕ) (mem : List ℕ)
    → 0 < fuel
    → len ≤ i + offset
    → strip_spaces fuel len i offset mem ≡ some (offset, mem)
unfolding strip_spaces
strip_spaces_end zero len i offset mem some_left le = absurd (omega arith)
strip_spaces_end (suc fuel) len i offset mem some_left le = ground arith

-- One round of the loop: the spaces at hand are skipped, and the character behind them moves.
strip_spaces_step :
    (fuel len i offset : ℕ) (front gap todo tail : List ℕ) (c : ℕ) (tail' : List ℕ)
    → i ≡ length front
    → offset ≡ length gap
    → i + offset < len
    → i + 1 < 256
    → i + offset + length todo < 256
    → rest todo ++ (0 ∷ tail) ≡ c ∷ tail'
    → strip_spaces (suc fuel) len i offset (front ++ (gap ++ (todo ++ (0 ∷ tail))))
      ≡ strip_spaces fuel len
          (i + 1)
          (offset + lead todo)
          ((front ++ (c ∷ [])) ++ (shift (gap ++ spaces todo) c ++ tail'))
strip_spaces_step fuel len i offset front gap todo tail c tail' ei eo lt room fits er =
    strip_spaces-suc fuel len i offset _ (offset + lead todo) lt room
      (skipped front gap todo tail i offset ei eo fits)
    ∙ ap (strip_spaces fuel len (i + 1) (offset + lead todo)) moved
  where
    gap' : List ℕ
    gap' = gap ++ spaces todo

    moved :
        let mem = front ++ (gap ++ (todo ++ (0 ∷ tail))) in
        set mem i (get_or mem (i + (offset + lead todo)) 0)
        ≡ (front ++ (c ∷ [])) ++ (shift gap' c ++ tail')
    moved = rw (behind_spaces front gap todo tail c tail' er) (
        rw
          (get_or-behind front gap' tail' c (i + (offset + lead todo))
            (omega (arith, length-append gap (spaces todo), length-spaces todo)))
          (set-shift front gap' tail' c i ei))

-- The loop ends within its fuel: the text without its spaces stands at the front, and `offset` is
-- what it has lost in length.
pub record IsStripped (len : ℕ) (front text : List ℕ) (result : Option (ℕ × List ℕ)) : Type 0 where
  pub offset : ℕ
  pub behind : List ℕ
  pub returns : result ≡ some (offset, front ++ (squeeze text ++ behind))
  pub counted : length front + length (squeeze text) + offset ≡ len

IsStripped-cons :
    (len : ℕ) (front text cs : List ℕ) (c : ℕ) {result result' : Option (ℕ × List ℕ)}
    → squeeze text ≡ c ∷ squeeze cs
    → result ≡ result'
    → IsStripped len (front ++ (c ∷ [])) cs result'
    → IsStripped len front text result
IsStripped-cons len front text cs c es er r = record {
  offset = r.offset;
  behind = r.behind;
  returns =
      er
      ∙ r.returns
      ∙ rw es (ap (λ t. some (r.offset, t)) (append_assoc front (c ∷ []) (squeeze cs ++ r.behind)));
  counted = rw es (omega (arith, r.counted, length-append front (c ∷ [])));
}

List-cases : (s : List ℕ) → (s ≡ []) ⊎ ((c : ℕ) × (cs : List ℕ) × (s ≡ c ∷ cs))
List-cases [] = inl refl
List-cases (c ∷ cs) = inr (c, cs, refl)

squeeze_nil : (s : List ℕ) → rest s ≡ [] → squeeze s ≡ []
unfolding rest squeeze
squeeze_nil [] e = refl
squeeze_nil (c ∷ cs) e = ground (arith, squeeze_nil cs)

squeeze_cons : (c : ℕ) (cs : List ℕ) → c ≢ b' ' → squeeze (c ∷ cs) ≡ c ∷ squeeze cs
unfolding squeeze
squeeze_cons c cs h = ground arith

pub strip_spaces-IsStripped :
    (fuel len i offset : ℕ) (front gap todo tail : List ℕ)
    → i ≡ length front
    → offset ≡ length gap
    → i + offset + length todo ≡ len
    → len < 256
    → length todo < fuel
    → IsStripped len front todo
        (strip_spaces fuel len i offset (front ++ (gap ++ (todo ++ (0 ∷ tail)))))
strip_spaces-IsStripped zero len i offset front gap todo tail ei eo el lt h = absurd (omega arith)
strip_spaces-IsStripped (suc fuel) len i offset front gap [] tail ei eo el lt h = record {
  offset = offset;
  behind = gap ++ (0 ∷ tail);
  returns =
      strip_spaces_end (suc fuel) len i offset _ (omega arith) (omega arith)
      ∙ rw (squeeze_nil [] (unfold rest in refl));
  counted = rw (squeeze_nil [] (unfold rest in refl)) (omega arith);
}
strip_spaces-IsStripped (suc fuel) len i offset front gap (d ∷ ds) tail ei eo el lt h =
    let todo : List ℕ = d ∷ ds in
    let gap' : List ℕ = gap ++ spaces todo in
    elim (List-cases (rest todo)) [
      | inl e ↦ record {
        offset = offset + lead todo;
        behind = 0 ∷ (shift gap' 0 ++ tail);
        returns =
            strip_spaces_step fuel len i offset front gap todo tail 0 tail ei eo (omega arith)
              (omega arith) (omega arith) (rw e)
            ∙ strip_spaces_end fuel len (i + 1) (offset + lead todo) _ (omega arith)
                (omega (arith, length-rest todo, ap length e))
            ∙ rw (squeeze_nil todo e) (
                ap (λ t. some (offset + lead todo, t))
                  (append_assoc front (0 ∷ []) (shift gap' 0 ++ tail)));
        counted = rw (squeeze_nil todo e) (omega (arith, length-rest todo, ap length e));
      }
      | inr (c, cs, e) ↦
          IsStripped-cons len front todo cs c
            (sym (squeeze-rest todo) ∙ ap squeeze e ∙ squeeze_cons c cs (rest-head todo e))
            (strip_spaces_step fuel len i offset front gap todo tail c (cs ++ (0 ∷ tail)) ei eo
              (omega arith) (omega arith) (omega arith) (rw e))
            (strip_spaces-IsStripped fuel len (i + 1) (offset + lead todo) (front ++ (c ∷ []))
              (shift gap' c) cs tail (omega (arith, length-append front (c ∷ [])))
              (omega
                (arith, length-shift gap' c, length-append gap (spaces todo), length-spaces todo))
              (omega (arith, length-rest todo, ap length e)) lt
              (omega (arith, length-rest todo, ap length e)))
    ]
