-- ===== src/Color/RoundTrip.antt =====
-- A colour that is read from a device and printed is converted back to its bytes, with the spaces of
-- makeHumanColor and without.
use plasma_trim_cli.Base.{
  ℕ, zero, suc, ◌+◌, ◌≡◌, refl, ap₂, ◌∙◌, ◌≢◌, true, List, [], ◌∷◌, ◌++◌, arith, length, get_or,
  tabulate, All, All-append, All-tabulate,
}
use plasma_trim_cli.Color.{make_color, make_human_color, print_color}
use plasma_trim_cli.Color.Squeeze.{squeeze}
use plasma_trim_cli.Color.Digits.{
  digit_at, digits_text, AllBytes, IsPlain, digit_at-IsPlain, squeeze-append, squeeze_plain,
  All-nonzero, IsBytes, make_color-IsBytes, make_color-digits_text,
}

-- The bytes of a report that are the colour.
abbrev pub color_bytes : List ℕ → ℕ → ℕ
color_bytes cmd k = get_or cmd (k + 1) 0

pub print_color-table :
    (cmd : List ℕ) → print_color cmd ≡ digits_text true (color_bytes cmd) ++ (0 ∷ [])
unfolding print_color digits_text
print_color-table cmd = refl

-- What getColor prints, makeColor reads back.
pub make_color-print_color :
    (cmd : List ℕ)
    → AllBytes (color_bytes cmd)
    → IsBytes true (color_bytes cmd) (make_color (print_color cmd) true)
make_color-print_color cmd bytes =
    rw (print_color-table cmd) (make_color-digits_text true (color_bytes cmd) [] bytes)

-- The text of makeHumanColor: eight groups of six digits with a space between them.
group : List ℕ → ℕ → List ℕ
group cmd i = tabulate 6 i (digit_at (color_bytes cmd))

groups : List ℕ → ℕ → ℕ → List ℕ
groups cmd zero i = group cmd i
groups cmd (suc n) i = group cmd i ++ (b' ' ∷ groups cmd n (i + 6))

human-table : (cmd : List ℕ) → make_human_color (print_color cmd) ≡ groups cmd 7 0 ++ (0 ∷ [])
unfolding print_color make_human_color group groups
human-table cmd = refl

group-IsPlain : (cmd : List ℕ) (i : ℕ) → All IsPlain (group cmd i)
unfolding group
group-IsPlain cmd i = All-tabulate IsPlain 6 i _ (λ j p q. digit_at-IsPlain (color_bytes cmd) j)

joined : List ℕ → ℕ → ℕ → List ℕ
joined cmd zero i = group cmd i
joined cmd (suc n) i = group cmd i ++ joined cmd n (i + 6)

joined-table : (cmd : List ℕ) → joined cmd 7 0 ≡ digits_text true (color_bytes cmd)
unfolding joined group digits_text
joined-table cmd = refl

squeeze_space : (s : List ℕ) → squeeze (b' ' ∷ s) ≡ squeeze s
unfolding squeeze
squeeze_space s = refl

-- Without the spaces the groups join up.
squeeze-groups : (cmd : List ℕ) (n i : ℕ) → squeeze (groups cmd n i) ≡ joined cmd n i
unfolding groups joined
squeeze-groups cmd zero i = squeeze_plain (group cmd i) (group-IsPlain cmd i)
squeeze-groups cmd (suc n) i =
    squeeze-append (group cmd i) (b' ' ∷ groups cmd n (i + 6))
    ∙ ap₂ ◌++◌ (squeeze_plain (group cmd i) (group-IsPlain cmd i))
        (squeeze_space (groups cmd n (i + 6)) ∙ squeeze-groups cmd n (i + 6))

groups_nonzero : (cmd : List ℕ) (n i : ℕ) → All (λ c. c ≢ 0) (groups cmd n i)
unfolding groups
groups_nonzero cmd zero i = All-nonzero (group cmd i) (group-IsPlain cmd i)
groups_nonzero cmd (suc n) i =
    All-append (λ c. c ≢ 0) (group cmd i) (b' ' ∷ groups cmd n (i + 6))
      (All-nonzero (group cmd i) (group-IsPlain cmd i)) (omega arith, groups_nonzero cmd n (i + 6))

length-groups : (cmd : List ℕ) → length (groups cmd 7 0) ≡ 55
unfolding groups group
length-groups cmd = refl

-- The colour that makeHumanColor separates by spaces is converted to the bytes of the report too.
pub make_color-make_human_color :
    (cmd : List ℕ)
    → AllBytes (color_bytes cmd)
    → IsBytes true (color_bytes cmd) (make_color (make_human_color (print_color cmd)) true)
make_color-make_human_color cmd bytes = rw (human-table cmd) (
    make_color-IsBytes true (color_bytes cmd) (groups cmd 7 0) [] bytes (groups_nonzero cmd 7 0)
      (omega (arith, length-groups cmd)) (squeeze-groups cmd 7 0 ∙ joined-table cmd))
