-- ===== src/Stream/Shown.antt =====
-- What streamData shows for a slot, next to what upload stores for the same line.
use plasma_trim_cli.Base.{
  ℕ, zero, suc, ◌+◌, ◌-◌, ◌*◌, ◌/◌, ◌%◌, ◌≤◌, ◌<◌, ◌≡◌, refl, ap, ap₂, ◌∙◌, ◌≢◌, true, false, List,
  [], ◌∷◌, ◌++◌, arith, length, get_or, drop, tabulate, All, get_or-tabulate, All-append,
  All-tabulate,
}
use mathlib.Core.Path.{subst}
use plasma_trim_cli.Hex.{digit_value, byte_value}
use plasma_trim_cli.Hex.Laws.{IsHex, digit_value-lt, byte_value_lem}
use plasma_trim_cli.Color.{make_color, make_human_color}
use plasma_trim_cli.Color.Squeeze.{squeeze}
use plasma_trim_cli.Color.Format.{IsColor, make_color-IsColor, digit_source}
use plasma_trim_cli.Color.Digits.{IsPlain, squeeze-append, squeeze_plain, All-nonzero}
use plasma_trim_cli.Sequence.{UploadState, color_column}
use plasma_trim_cli.Stream.{slot_column}

-- Digit `k` of the colour on a line, in the column of a device.
abbrev pub column_digit : List ℕ → ℕ → ℕ → ℕ → ℕ
column_digit line device_num offset k = get_or line (k + 14 + 27 * (device_num - 1) + offset) 0

pub digits : (ℕ → ℕ) → List ℕ
digits d = tabulate 24 0 d

pub slot_column-table :
    (line : List ℕ) (device_num offset : ℕ)
    → slot_column line device_num offset ≡ digits (column_digit line device_num offset) ++ (0 ∷ [])
unfolding slot_column digits
slot_column-table line device_num offset = refl

pub color_column-table :
    (line : List ℕ) (u : UploadState)
    → color_column line u ≡ digits (column_digit line u.device_num u.offset) ++ (0 ∷ [])
unfolding color_column digits
color_column-table line u = refl

-- Groups of six digits with a space behind each.
pub groups : (ℕ → ℕ) → ℕ → ℕ → List ℕ
groups d zero i = []
groups d (suc n) i = tabulate 6 i d ++ (b' ' ∷ groups d n (i + 6))

joined : (ℕ → ℕ) → ℕ → ℕ → List ℕ
joined d zero i = []
joined d (suc n) i = tabulate 6 i d ++ joined d n (i + 6)

-- What stands behind the terminator of the text.
pub behind : (ℕ → ℕ) → List ℕ
behind d = drop 29 (make_human_color (digits d ++ (0 ∷ [])))

pub human-groups :
    (d : ℕ → ℕ) → make_human_color (digits d ++ (0 ∷ [])) ≡ groups d 4 0 ++ (0 ∷ behind d)
unfolding make_human_color groups behind digits
human-groups d = refl

joined-digits : (d : ℕ → ℕ) → joined d 4 0 ≡ digits d
unfolding joined digits
joined-digits d = refl

hex-IsPlain : (c : ℕ) → IsHex c → IsPlain c
hex-IsPlain c h = ground arith

module _ (d : ℕ → ℕ) (hex : (k : ℕ) → k < 24 → IsHex (d k)) where
  group-IsPlain : (i : ℕ) → i + 6 ≤ 24 → All IsPlain (tabulate 6 i d)
  group-IsPlain i h = All-tabulate IsPlain 6 i d (λ j p q. hex-IsPlain (d j) (hex j (omega arith)))

  squeeze-groups : (n i : ℕ) → i + n * 6 ≤ 24 → squeeze (groups d n i) ≡ joined d n i
  unfolding squeeze groups joined
  squeeze-groups zero i h = refl
  squeeze-groups (suc n) i h =
      squeeze-append (tabulate 6 i d) (b' ' ∷ groups d n (i + 6))
      ∙ ap₂ ◌++◌ (squeeze_plain (tabulate 6 i d) (group-IsPlain i (omega arith)))
          (squeeze-groups n (i + 6) (omega arith))

  pub groups_nonzero : (n i : ℕ) → i + n * 6 ≤ 24 → All (λ c. c ≢ 0) (groups d n i)
  unfolding groups
  groups_nonzero zero i h = tt
  groups_nonzero (suc n) i h =
      All-append (λ c. c ≢ 0) (tabulate 6 i d) (b' ' ∷ groups d n (i + 6))
        (All-nonzero (tabulate 6 i d) (group-IsPlain i (omega arith)))
        (omega arith, groups_nonzero n (i + 6) (omega arith))

  pub length-groups : length (groups d 4 0) ≡ 28
  unfolding groups
  length-groups = refl

  pub squeezed : squeeze (groups d 4 0) ≡ digits d
  squeezed = squeeze-groups 4 0 (omega arith) ∙ joined-digits d

  digits-IsPlain : All IsPlain (digits d)
  unfolding digits
  digits-IsPlain = All-tabulate IsPlain 24 0 d (λ j p q. hex-IsPlain (d j) (hex j (omega arith)))

  get_or-digits : (k : ℕ) → k < 24 → get_or (digits d) k 0 ≡ d k
  unfolding digits
  get_or-digits k h = get_or-tabulate 24 0 k d 0 h ∙ ap d (omega arith)

  pub length-digits : length (digits d) ≡ 24
  unfolding digits
  length-digits = refl

  -- What upload stores: two digits in a byte.
  pub short-IsColor : IsColor false (digits d) (make_color (digits d ++ (0 ∷ [])) false)
  short-IsColor =
      subst (λ t. IsColor false t (make_color (digits d ++ (0 ∷ [])) false))
        (squeeze_plain (digits d) digits-IsPlain)
        (make_color-IsColor false (digits d) [] (All-nonzero (digits d) digits-IsPlain)
          (omega (arith, length-digits))
          (omega (arith, length-digits, ap length (squeeze_plain (digits d) digits-IsPlain))))

  own_digit : (k : ℕ) → k < 24 → get_or (digits d) (digit_source false 24 k) 0 ≡ d k
  unfolding digit_source
  own_digit k h = get_or-digits k h

  double_digit : (k : ℕ) → k < 48 → get_or (digits d) (digit_source true 24 k) 0 ≡ d (k / 2)
  unfolding digit_source
  double_digit k h = get_or-digits (k / 2) (omega arith)

  byte_digits :
      (j k : ℕ)
      → j < 24
      → k < 24
      → byte_value (d j) (d k) ≡ digit_value (d j) * 16 + digit_value (d k)
  byte_digits j k hj hk = byte_value_lem (d j) (d k) (hex j hj) (hex k hk)

  pub stored_byte :
      (buf : List ℕ) (k : ℕ)
      → k < 12
      → get_or buf k 0
        ≡ byte_value
            (get_or (digits d) (digit_source false (length (digits d)) (k * 2)) 0)
            (get_or (digits d) (digit_source false (length (digits d)) (k * 2 + 1)) 0)
      → (get_or buf k 0 / 16 ≡ digit_value (d (k * 2)))
        × (get_or buf k 0 % 16 ≡ digit_value (d (k * 2 + 1)))
  stored_byte buf k h e =
      let e' : get_or buf k 0 ≡ digit_value (d (k * 2)) * 16 + digit_value (d (k * 2 + 1)) =
        e
        ∙ rw length-digits
            (ap₂ byte_value (own_digit (k * 2) (omega arith)) (own_digit (k * 2 + 1) (omega arith)))
        ∙ byte_digits (k * 2) (k * 2 + 1) (omega arith) (omega arith) in
      (
        omega (arith, e', digit_value-lt (d (k * 2 + 1)) (hex (k * 2 + 1) (omega arith))),
        omega (arith, e', digit_value-lt (d (k * 2 + 1)) (hex (k * 2 + 1) (omega arith))),
      )

  pub shown_byte :
      (row : List ℕ) (k : ℕ)
      → k < 24
      → get_or row k 0
        ≡ byte_value
            (get_or (digits d) (digit_source true (length (digits d)) (k * 2)) 0)
            (get_or (digits d) (digit_source true (length (digits d)) (k * 2 + 1)) 0)
      → get_or row k 0 ≡ 17 * digit_value (d k)
  shown_byte row k h e =
      let first : k * 2 / 2 ≡ k = omega arith in
      let second : (k * 2 + 1) / 2 ≡ k = omega arith in
      let e' : get_or row k 0 ≡ digit_value (d k) * 16 + digit_value (d k) =
        e
        ∙ rw length-digits (
            ap₂ byte_value (double_digit (k * 2) (omega arith) ∙ ap d first)
              (double_digit (k * 2 + 1) (omega arith) ∙ ap d second))
        ∙ byte_digits k k h h in
      omega (arith, e')
