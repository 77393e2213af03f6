-- ===== src/Text/Wrap.antt =====
-- The lines of format_print keep the text, and are short enough.
use plasma_trim_cli.Base.{
  ℕ, zero, suc, ◌-◌, ◌≤◌, ◌<◌, min, ◌≡◌, refl, ap, ◌∙◌, Option, none, some, List, [], ◌∷◌, ◌++◌,
  arith, lt→ltb, length, take, drop, All, take-append-drop, length-take,
}
use plasma_trim_cli.Text.{last_space, line_length, break_lines}

last_space-le : (rest : List ℕ) (i : ℕ) → last_space rest i ≤ i
unfolding last_space
last_space-le rest zero = omega arith
last_space-le rest (suc i) = ground (arith, last_space-le rest i)

line_length-bounds :
    (width : ℕ) (rest : List ℕ)
    → 1 ≤ width
    → 1 ≤ length rest
    → (1 ≤ line_length width rest) × (line_length width rest ≤ min width (length rest))
unfolding line_length
line_length-bounds width rest h k = ground (arith, last_space-le rest width)

abbrev pub join : List (List ℕ) → List ℕ
join [] = []
join (l ∷ ls) = l ++ join ls

abbrev pub IsLine : ℕ → List ℕ → Type 0
IsLine width line = (1 ≤ length line) × (length line ≤ width)

-- A text in lines.
pub record IsWrapped (width : ℕ) (text : List ℕ) (result : Option (List (List ℕ))) : Type 0 where
  pub lines : List (List ℕ)
  pub returns : result ≡ some lines
  pub whole : join lines ≡ text
  pub fits : All (IsLine width) lines

length-drop : (n : ℕ) (xs : List ℕ) → length (drop n xs) ≡ length xs - n
length-drop zero xs = omega arith
length-drop (suc n) [] = omega arith
length-drop (suc n) (x ∷ xs) = omega (arith, length-drop n xs)

-- One more round of the loop.
abbrev put : List ℕ → Option (List (List ℕ)) → Option (List (List ℕ))
put line none = none
put line (some lines) = some (line ∷ lines)

break_lines_round :
    (fuel width c : ℕ) (cs : List ℕ)
    → break_lines (suc fuel) width (c ∷ cs)
      ≡ put
          (take (line_length width (c ∷ cs)) (c ∷ cs))
          (break_lines fuel width (drop (line_length width (c ∷ cs)) (c ∷ cs)))
unfolding break_lines
break_lines_round fuel width c cs = rw (break_lines, lt→ltb 0 (suc (length cs)) (omega arith)) refl

take-IsLine :
    (width n : ℕ) (text : List ℕ)
    → (1 ≤ n) × (n ≤ min width (length text))
    → IsLine width (take n text)
take-IsLine width n text h =
    (omega (arith, h.0, h.1, length-take n text), omega (arith, h.0, h.1, length-take n text))

-- On a terminal with room for one character at least, the loop of format_print ends: its lines put
-- together are the text, and none is empty or longer than the room.
pub break_lines-IsWrapped :
    (fuel width : ℕ) (text : List ℕ)
    → 1 ≤ width
    → length text < fuel
    → IsWrapped width text (break_lines fuel width text)
unfolding break_lines
break_lines-IsWrapped zero width text h k = absurd (omega arith)
break_lines-IsWrapped (suc fuel) width [] h k = record {
  lines = [];
  returns = refl;
  whole = refl;
  fits = tt;
}
break_lines-IsWrapped (suc fuel) width (c ∷ cs) h k =
    let n = line_length width (c ∷ cs) in
    let bounds = line_length-bounds width (c ∷ cs) h (omega arith) in
    let rest =
      break_lines-IsWrapped fuel width (drop n (c ∷ cs)) h
        (omega (arith, length-drop n (c ∷ cs), bounds.0, bounds.1)) in
    record {
      lines = take n (c ∷ cs) ∷ rest.lines;
      returns = break_lines_round fuel width c cs ∙ ap (put (take n (c ∷ cs))) rest.returns;
      whole = ap (λ t. take n (c ∷ cs) ++ t) rest.whole ∙ take-append-drop n (c ∷ cs);
      fits = (take-IsLine width n (c ∷ cs) bounds, rest.fits);
    }

no_room : (text : List ℕ) → line_length 0 text ≡ 0
unfolding line_length last_space
no_room text = ground arith

-- Without any room the loop never ends on a text that is not empty.
pub break_lines_no_room : (fuel c : ℕ) (cs : List ℕ) → break_lines fuel 0 (c ∷ cs) ≡ none
unfolding break_lines
break_lines_no_room zero c cs = refl
break_lines_no_room (suc fuel) c cs =
    break_lines_round fuel 0 c cs
    ∙ ap (λ n. put (take n (c ∷ cs)) (break_lines fuel 0 (drop n (c ∷ cs)))) (no_room (c ∷ cs))
    ∙ ap (put []) (break_lines_no_room fuel c cs)
