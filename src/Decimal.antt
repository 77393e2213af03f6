-- ===== src/Decimal.antt =====
-- The C library's number formats, as far as the program uses them: atoi, and %d, %02d, %03d and %02X.
pub mod Laws
use plasma_trim_cli.Base.{
  ℤ, pos, negsuc, ℕ, zero, suc, ◌+◌, ◌-◌, ◌*◌, ◌/◌, ◌%◌, Bool, ◌&&◌, ◌||◌, List, [], ◌∷◌, ◌++◌, ltb,
  leb, ◌==◌, if◌then◌else◌, length, replicate,
}
use plasma_trim_cli.Hex.{high_digit, low_digit}

-- The decimal digits of a number below 10 ^ 10.
unfoldable pub decimal_from : ℕ → ℕ → List ℕ
decimal_from zero n = []
decimal_from (suc fuel) n =
    let front = decimal_from fuel (n / 10) in
    if ltb n 10 then (n + 48) ∷ [] else front ++ ((n % 10 + 48) ∷ [])

-- %d of a number that is not negative.
unfoldable pub decimal : ℕ → List ℕ
unfolding decimal_from
decimal n = decimal_from 10 n

-- %02d and %03d pad with zeros on the left.
unfoldable pub decimal_padded : ℕ → ℕ → List ℕ
unfolding decimal
decimal_padded width n = let d = decimal n in replicate (width - length d) b'0' ++ d

-- %02X of a byte.
abbrev pub hex_byte : ℕ → List ℕ
hex_byte b = high_digit b ∷ low_digit b ∷ []

abbrev is_digit : ℕ → Bool
is_digit c = leb b'0' c && leb c b'9'

digits_value : ℕ → List ℕ → ℕ
digits_value acc [] = acc
digits_value acc (c ∷ cs) =
    let more = digits_value (acc * 10 + (c - 48)) cs in if is_digit c then more else acc

negate : ℕ → ℤ
negate zero = pos 0
negate (suc n) = negsuc n

-- isspace in the C locale.
abbrev is_space : ℕ → Bool
is_space c = c == 32 || leb 9 c && leb c 13

-- After the white space: a sign, and the digits that follow.
signed_value : List ℕ → ℤ
unfolding digits_value negate
signed_value [] = pos 0
signed_value (c ∷ cs) =
    if c == b'-'
    then negate (digits_value 0 cs)
    else if c == b'+'
    then pos (digits_value 0 cs)
    else pos (digits_value 0 (c ∷ cs))

-- atoi of a C string, for a value that an `int` holds.
unfoldable pub atoi : List ℕ → ℤ
unfolding signed_value
atoi [] = pos 0
atoi (c ∷ cs) = let more = atoi cs in if is_space c then more else signed_value (c ∷ cs)
