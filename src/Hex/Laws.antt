-- ===== src/Hex/Laws.antt =====
-- Digits that are written are read back.
use plasma_trim_cli.Base.{ℕ, ◌+◌, ◌*◌, ◌/◌, ◌%◌, ◌≤◌, ◌<◌, ◌≡◌, ◌⊎◌, arith, IsByte}
use plasma_trim_cli.Hex.{hex_digit, digit_value, byte_value, high_digit, low_digit}

-- The characters 0-9, A-F and a-f.
abbrev pub IsHex : ℕ → Type 0
IsHex c = ((48 ≤ c) × (c ≤ 57)) ⊎ ((65 ≤ c) × (c ≤ 70)) ⊎ ((97 ≤ c) × (c ≤ 102))

pub digit_value-hex_digit : (n : ℕ) → n < 16 → digit_value (hex_digit n) ≡ n
unfolding digit_value hex_digit
digit_value-hex_digit n h = ground arith

pub digit_value-lt : (c : ℕ) → IsHex c → digit_value c < 16
unfolding digit_value
digit_value-lt c h = ground arith

pub hex_digit-IsHex : (n : ℕ) → n < 16 → IsHex (hex_digit n)
unfolding hex_digit
hex_digit-IsHex n h = ground arith

-- Two hexadecimal characters make the byte with these digits.
pub byte_value_lem :
    (a b : ℕ) → IsHex a → IsHex b → byte_value a b ≡ digit_value a * 16 + digit_value b
unfolding byte_value
byte_value_lem a b ha hb = omega (arith, digit_value-lt a ha, digit_value-lt b hb)

pub byte_value-digits : (b : ℕ) → IsByte b → byte_value (high_digit b) (low_digit b) ≡ b
unfolding byte_value
byte_value-digits b h =
    rw (digit_value-hex_digit (b / 16) (omega arith))
      (rw (digit_value-hex_digit (b % 16) (omega arith)) (omega arith))
