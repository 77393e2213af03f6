-- ===== src/Color/Digits.antt =====
-- Bytes that are printed as two digits each are what makeColor reads.
use plasma_trim_cli.Base.{
  ℕ, zero, suc, ◌+◌, ◌*◌, ◌/◌, ◌%◌, ◌≤◌, ◌<◌, ◌≡◌, refl, ap, ap₂, ◌∙◌, ◌≢◌, Bool, true, false,
  Option, some, List, [], ◌∷◌, ◌++◌, arith, ◌==◌, if◌then◌else◌, length, get_or, tabulate, All,
  length-tabulate, get_or-tabulate, All-tabulate, IsByte,
}
use plasma_trim_cli.Hex.{hex_digit, high_digit, low_digit, byte_value}
use plasma_trim_cli.Hex.Laws.{byte_value-digits}
use plasma_trim_cli.Color.{make_color}
use plasma_trim_cli.Color.Squeeze.{squeeze}
use plasma_trim_cli.Color.Format.{IsColor, make_color-IsColor, digit_source, digit_count}

-- Digit `j` of a row of bytes.
abbrev pub digit_at : (ℕ → ℕ) → ℕ → ℕ
digit_at b j = if j % 2 == 0 then high_digit (b (j / 2)) else low_digit (b (j / 2))

-- The digits of a colour that has these bytes: 48 of a full one, 24 of a short one.
unfoldable pub digits_text : Bool → (ℕ → ℕ) → List ℕ
digits_text full b = tabulate (digit_count full) 0 (digit_at b)

pub length-digits_text : (full : Bool) (b : ℕ → ℕ) → length (digits_text full b) ≡ digit_count full
unfolding digits_text
length-digits_text full b = length-tabulate (digit_count full) 0 (digit_at b)

get_or-digits_text :
    (full : Bool) (b : ℕ → ℕ) (j : ℕ)
    → j < digit_count full
    → get_or (digits_text full b) j 0 ≡ digit_at b j
unfolding digits_text
get_or-digits_text full b j h =
    get_or-tabulate (digit_count full) 0 j (digit_at b) 0 h ∙ ap (digit_at b) (omega arith)

digit_source_own : (full : Bool) (j : ℕ) → digit_source full (digit_count full) j ≡ j
unfolding digit_source
digit_source_own true j = refl
digit_source_own false j = refl

abbrev pub AllBytes : (ℕ → ℕ) → Type 0
AllBytes b = (k : ℕ) → IsByte (b k)

pub AllBytes-get_or : (xs : List ℕ) → All IsByte xs → AllBytes (λ k. get_or xs k 0)
AllBytes-get_or [] h k = omega arith
AllBytes-get_or (x ∷ xs) h zero = h.0
AllBytes-get_or (x ∷ xs) h (suc k) = AllBytes-get_or xs h.1 k

abbrev pub IsPlain : ℕ → Type 0
IsPlain c = (c ≢ 0) × (c ≢ b' ')

pub digit_at-IsPlain : (b : ℕ → ℕ) (j : ℕ) → IsPlain (digit_at b j)
unfolding hex_digit
digit_at-IsPlain b j = ground arith

pub squeeze-append : (s t : List ℕ) → squeeze (s ++ t) ≡ squeeze s ++ squeeze t
unfolding squeeze
squeeze-append [] t = refl
squeeze-append (c ∷ cs) t = ground (arith, squeeze-append cs t)

pub squeeze_plain : (s : List ℕ) → All IsPlain s → squeeze s ≡ s
unfolding squeeze
squeeze_plain [] h = refl
squeeze_plain (c ∷ cs) h = ground (arith, squeeze_plain cs h.1)

pub All-nonzero : (s : List ℕ) → All IsPlain s → All (λ c. c ≢ 0) s
All-nonzero [] h = tt
All-nonzero (c ∷ cs) h = (h.0.0, All-nonzero cs h.1)

pub digits_text-IsPlain : (full : Bool) (b : ℕ → ℕ) → All IsPlain (digits_text full b)
unfolding digits_text
digits_text-IsPlain full b =
    All-tabulate IsPlain (digit_count full) 0 (digit_at b) (λ j p q. digit_at-IsPlain b j)

-- A result of makeColor that holds these bytes.
pub record IsBytes (full : Bool) (b : ℕ → ℕ) (result : Option (List ℕ × List ℕ)) : Type 0 where
  pub buf : List ℕ
  pub stripped : List ℕ
  pub returns : result ≡ some (buf, stripped)
  pub same : (k : ℕ) → k * 2 < digit_count full → get_or buf k 0 ≡ b k

digit_pair :
    (b : ℕ → ℕ) (k : ℕ)
    → AllBytes b
    → byte_value (digit_at b (k * 2)) (digit_at b (k * 2 + 1)) ≡ b k
digit_pair b k bytes = ap₂ byte_value even odd ∙ byte_value-digits (b k) (bytes k)
  where
    even : digit_at b (k * 2) ≡ high_digit (b k)
    even =
        let parity : k * 2 % 2 ≡ 0 = omega arith in
        let half : k * 2 / 2 ≡ k = omega arith in rw (parity, half)

    odd : digit_at b (k * 2 + 1) ≡ low_digit (b k)
    odd =
        let parity : (k * 2 + 1) % 2 ≡ 1 = omega arith in
        let half : (k * 2 + 1) / 2 ≡ k = omega arith in rw (parity, half)

digits_even : (full : Bool) (k : ℕ) → k * 2 < digit_count full → k * 2 + 1 < digit_count full
digits_even true k h = omega arith
digits_even false k h = omega arith

of_IsColor :
    (full : Bool) (b : ℕ → ℕ) {result : Option (List ℕ × List ℕ)}
    → AllBytes b
    → IsColor full (digits_text full b) result
    → IsBytes full b result
of_IsColor full b bytes c = record {
  buf = c.buf;
  stripped = c.stripped;
  returns = c.returns;
  same = λ k hk.
      c.bytes k hk
      ∙ ap₂ byte_value (digit (k * 2) hk) (digit (k * 2 + 1) (digits_even full k hk))
      ∙ digit_pair b k bytes;
}
  where
    digit :
        (j : ℕ)
        → j < digit_count full
        → get_or (digits_text full b) (digit_source full (length (digits_text full b)) j) 0
          ≡ digit_at b j
    digit j hj =
        rw (length-digits_text full b)
          (rw (digit_source_own full j) (get_or-digits_text full b j hj))

three_digits : (full : Bool) → 3 ≤ digit_count full
three_digits true = omega arith
three_digits false = omega arith

short_text : (full : Bool) → digit_count full < 256
short_text true = omega arith
short_text false = omega arith

-- A text that is the digits of the bytes, but for spaces, is converted to the bytes.
pub make_color-IsBytes :
    (full : Bool) (b : ℕ → ℕ) (text tail : List ℕ)
    → AllBytes b
    → All (λ c. c ≢ 0) text
    → length text < 256
    → squeeze text ≡ digits_text full b
    → IsBytes full b (make_color (text ++ (0 ∷ tail)) full)
make_color-IsBytes full b text tail bytes nonzero short same = of_IsColor full b bytes (
    rw (← same) (
      make_color-IsColor full text tail nonzero short
        (omega (arith, ap length same, length-digits_text full b, three_digits full))))

pub make_color-digits_text :
    (full : Bool) (b : ℕ → ℕ) (tail : List ℕ)
    → AllBytes b
    → IsBytes full b (make_color (digits_text full b ++ (0 ∷ tail)) full)
make_color-digits_text full b tail bytes =
    make_color-IsBytes full b (digits_text full b) tail bytes
      (All-nonzero _ (digits_text-IsPlain full b))
      (omega (arith, length-digits_text full b, short_text full))
      (squeeze_plain _ (digits_text-IsPlain full b))
