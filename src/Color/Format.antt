-- ===== src/Color/Format.antt =====
-- The colour formats that makeColor accepts, as one table: which character of the text without its
-- spaces becomes which digit of the colour.
use plasma_trim_cli.Base.{
  ℕ, zero, suc, ◌+◌, ◌-◌, ◌*◌, ◌/◌, ◌%◌, ◌≤◌, ◌<◌, ◌≡◌, refl, ap, ap₂, ◌∙◌, ◌≢◌, inl, inr, Bool,
  true, false, Option, some, List, [], ◌∷◌, ◌++◌, arith, ltb, if◌then◌else◌, Bool-cases, length,
  get_or, replicate, tabulate, All, get_or-append_left, length-tabulate, get_or-tabulate_append,
  c_string,
}
use plasma_trim_cli.Hex.{byte_value}
use plasma_trim_cli.Color.{strip_spaces, standardize, pack_digits, make_color}
use plasma_trim_cli.Color.Squeeze.{squeeze}
use plasma_trim_cli.Color.Strip.{IsStripped, strip_spaces-IsStripped}

-- Fewer than 6 characters are one colour of 3 digits for every LED, fewer than 24 one of 6 digits,
-- fewer than 48 eight colours of 3 digits, and from 48 on eight of 6 digits. A full colour has 6
-- digits for each LED, a short one has 3.
unfoldable pub digit_source : Bool → ℕ → ℕ → ℕ
digit_source true n k =
    if ltb n 6 then k % 6 / 2 else if ltb n 24 then k % 6 else if ltb n 48 then k / 2 else k
digit_source false n k =
    if ltb n 6 then k % 3 else if ltb n 24 then k % 3 * 2 else if ltb n 48 then k else k * 2

-- The digits of a colour.
abbrev pub digit_count : Bool → ℕ
digit_count true = 48
digit_count false = 24

-- Every digit comes from the text, if that has 3 characters.
pub digit_source-lt :
    (full : Bool) (n k : ℕ) → 3 ≤ n → k < digit_count full → digit_source full n k < n
unfolding digit_source
digit_source-lt true n k h hk = ground arith
digit_source-lt false n k h hk = ground arith

abbrev pub packed : List ℕ → ℕ → ℕ
packed t k = byte_value (get_or t (k * 2) 0) (get_or t (k * 2 + 1) 0)

bytes_lt : (full : Bool) (k : ℕ) → k * 2 < digit_count full → k < 25
bytes_lt true k h = omega arith
bytes_lt false k h = omega arith

digits_even : (full : Bool) (k : ℕ) → k * 2 < digit_count full → k * 2 + 1 < digit_count full
digits_even true k h = omega arith
digits_even false k h = omega arith

pack_digits-table : (t : List ℕ) → pack_digits t ≡ tabulate 25 0 (packed t) ++ (0 ∷ [])
unfolding pack_digits
pack_digits-table t = refl

pub get_or-pack_digits : (t : List ℕ) (k : ℕ) → k < 25 → get_or (pack_digits t) k 0 ≡ packed t k
get_or-pack_digits t k h =
    rw (pack_digits-table t) (get_or-tabulate_append 25 k (packed t) (0 ∷ []) 0 h)

abbrev taken : Bool → ℕ → List ℕ → ℕ → ℕ
taken full n color k = get_or color (digit_source full n k) 0

standardize-table :
    (n : ℕ) (full : Bool) (color : List ℕ)
    → standardize n full color
      ≡ tabulate (digit_count full) 0 (taken full n color) ++ replicate (49 - digit_count full) 0
unfolding standardize digit_source
standardize-table n true color = elim (Bool-cases (ltb n 6)) [
  | inl a ↦ rw a
  | inr a ↦ rw a (elim (Bool-cases (ltb n 24)) [
    | inl b ↦ rw b
    | inr b ↦ rw b (elim (Bool-cases (ltb n 48)) [ inl c ↦ rw c | inr c ↦ rw c ])
  ])
]
standardize-table n false color = elim (Bool-cases (ltb n 6)) [
  | inl a ↦ rw a
  | inr a ↦ rw a (elim (Bool-cases (ltb n 24)) [
    | inl b ↦ rw b
    | inr b ↦ rw b (elim (Bool-cases (ltb n 48)) [ inl c ↦ rw c | inr c ↦ rw c ])
  ])
]

get_or-standardize :
    (full : Bool) (n : ℕ) (color : List ℕ) (k : ℕ)
    → k < digit_count full
    → get_or (standardize n full color) k 0 ≡ taken full n color k
get_or-standardize full n color k h =
    rw (standardize-table n full color)
      (get_or-tabulate_append (digit_count full) k (taken full n color) _ 0 h)

pub c_string_lem : (s tail : List ℕ) → All (λ c. c ≢ 0) s → c_string (s ++ (0 ∷ tail)) ≡ s
unfolding c_string
c_string_lem [] tail h = refl
c_string_lem (c ∷ cs) tail h = ground (arith, c_string_lem cs tail h.1)

-- What makeColor returns for a text: byte `k` of the result is made of two characters of the text.
pub record IsColor (full : Bool) (text : List ℕ) (result : Option (List ℕ × List ℕ)) : Type 0 where
  pub buf : List ℕ
  pub stripped : List ℕ
  pub returns : result ≡ some (buf, stripped)
  pub bytes :
      (k : ℕ)
      → k * 2 < digit_count full
      → get_or buf k 0
        ≡ byte_value
            (get_or text (digit_source full (length text) (k * 2)) 0)
            (get_or text (digit_source full (length text) (k * 2 + 1)) 0)

make_color_of :
    (full : Bool) (color text mem : List ℕ) (offset : ℕ)
    → c_string color ≡ text
    → strip_spaces 256 (length text) 0 0 color ≡ some (offset, mem)
    → make_color color full ≡ some (pack_digits (standardize (length text - offset) full mem), mem)
unfolding make_color
make_color_of full color text mem offset et es = ground (arith, et, es)

-- The bytes that come from a memory that begins with the text.
packed-standardize :
    (full : Bool) (text behind : List ℕ) (k : ℕ)
    → 3 ≤ length text
    → k * 2 < digit_count full
    → get_or (pack_digits (standardize (length text) full (text ++ behind))) k 0
      ≡ byte_value
          (get_or text (digit_source full (length text) (k * 2)) 0)
          (get_or text (digit_source full (length text) (k * 2 + 1)) 0)
packed-standardize full text behind k three hk =
    get_or-pack_digits _ k (bytes_lt full k hk)
    ∙ ap₂ byte_value (digit (k * 2) hk) (digit (k * 2 + 1) (digits_even full k hk))
  where
    digit :
        (j : ℕ)
        → j < digit_count full
        → get_or (standardize (length text) full (text ++ behind)) j 0
          ≡ get_or text (digit_source full (length text) j) 0
    digit j hj =
        get_or-standardize full (length text) (text ++ behind) j hj
        ∙ get_or-append_left text behind _ 0 (digit_source-lt full (length text) j three hj)

-- A text below 256 characters, 3 of them no spaces, is converted without a read behind it: only
-- the characters that are no spaces count, and each byte has the digits of the format.
pub make_color-IsColor :
    (full : Bool) (text tail : List ℕ)
    → All (λ c. c ≢ 0) text
    → length text < 256
    → 3 ≤ length (squeeze text)
    → IsColor full (squeeze text) (make_color (text ++ (0 ∷ tail)) full)
make_color-IsColor full text tail nonzero short three = of_stripped (
    strip_spaces-IsStripped 256 (length text) 0 0 [] [] text tail (omega arith) (omega arith)
      (omega arith) short short)
  where
    of_stripped :
        IsStripped (length text) [] text (strip_spaces 256 (length text) 0 0 (text ++ (0 ∷ tail)))
        → IsColor full (squeeze text) (make_color (text ++ (0 ∷ tail)) full)
    of_stripped s =
        let left : length text - s.offset ≡ length (squeeze text) = omega (arith, s.counted) in
        record {
          buf = pack_digits (standardize (length (squeeze text)) full (squeeze text ++ s.behind));
          stripped = squeeze text ++ s.behind;
          returns =
              rw (← left)
                (make_color_of full _ text _ s.offset (c_string_lem text tail nonzero) s.returns);
          bytes = λ k hk. packed-standardize full (squeeze text) s.behind k three hk;
        }

-- makeColor returns packed digits for every text below 256 characters.
pub make_color_packs :
    (full : Bool) (text tail : List ℕ)
    → All (λ c. c ≢ 0) text
    → length text < 256
    → (t : List ℕ) × (memory : List ℕ) × (make_color (text ++ (0 ∷ tail)) full
        ≡ some (pack_digits t, memory))
make_color_packs full text tail nonzero short =
    let s =
      strip_spaces-IsStripped 256 (length text) 0 0 [] [] text tail (omega arith) (omega arith)
        (omega arith) short short in
    (_, _, make_color_of full _ text _ s.offset (c_string_lem text tail nonzero) s.returns)

pub make_color_returns :
    (full : Bool) (text tail : List ℕ)
    → All (λ c. c ≢ 0) text
    → length text < 256
    → (r : List ℕ × List ℕ) × (make_color (text ++ (0 ∷ tail)) full ≡ some r)
make_color_returns full text tail nonzero short =
    let p = make_color_packs full text tail nonzero short in ((pack_digits p.0, p.1), p.2)

-- An empty text stays where it is.
pub make_color_empty :
    (full : Bool) (tail : List ℕ)
    → make_color (0 ∷ tail) full ≡ some (pack_digits (standardize 0 full (0 ∷ tail)), 0 ∷ tail)
unfolding make_color strip_spaces c_string
make_color_empty full tail = refl

-- The result of makeColor ends in a 0, so it is a C string itself.
first_zero :
    (xs tail : List ℕ)
    → (text : List ℕ) × (behind : List ℕ) × (xs ++ (0 ∷ tail) ≡ text ++ (0 ∷ behind))
      × All (λ c. c ≢ 0) text
      × (length text ≤ length xs)
first_zero [] tail = ([], tail, refl, tt, omega arith)
first_zero (zero ∷ xs) tail = ([], xs ++ (0 ∷ tail), refl, tt, omega arith)
first_zero (suc x ∷ xs) tail =
    let (text, behind, e, nonzero, short) = first_zero xs tail in
    (suc x ∷ text, behind, ap (λ t. suc x ∷ t) e, (omega arith, nonzero), omega (arith, short))

pub make_color-terminated :
    (full : Bool) (t : List ℕ) → (r : List ℕ × List ℕ) × (make_color (pack_digits t) full ≡ some r)
make_color-terminated full t =
    let (text, behind, e, nonzero, short) = first_zero (tabulate 25 0 (packed t)) [] in
    let r =
      make_color_returns full text behind nonzero
        (omega (arith, short, length-tabulate 25 0 (packed t))) in
    (r.0, ap (λ x. make_color x full) (pack_digits-table t ∙ e) ∙ r.1)
