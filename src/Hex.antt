-- ===== src/Hex.antt =====
-- Hexadecimal digits as the library of src/ptrim-lib.cc writes and reads them.
pub mod Laws
use plasma_trim_cli.Base.{ℕ, ◌+◌, ◌*◌, ◌/◌, ◌%◌, ltb, if◌then◌else◌, u8, u32, sub32, widen32}

-- A digit below 16 in ASCII: `n + 48`, and 7 more above '9' (getSerial, getColor, download).
unfoldable pub hex_digit : ℕ → ℕ
hex_digit n = let d = n + 48 in if ltb 0x39 d then d + 7 else d

-- The upper and the lower digit of a byte, `(b & 0xF0) >> 4` and `b & 0x0F`.
abbrev pub high_digit : ℕ → ℕ
high_digit b = hex_digit (b / 16)

abbrev pub low_digit : ℕ → ℕ
low_digit b = hex_digit (b % 16)

-- What makeColor takes a character for, in `unsigned int` arithmetic.
unfoldable pub digit_value : ℕ → ℕ
digit_value c =
    let m = widen32 c in
    if ltb 70 m
    then sub32 m 87
    else if ltb 57 m
    then sub32 m 55
    else if ltb 9 m
    then sub32 m 48
    else m

-- `buf[i / 2] = (msb << 4) + lsb`, cut to a byte.
unfoldable pub byte_value : ℕ → ℕ → ℕ
unfolding digit_value
byte_value msb lsb = u8 (u32 (u32 (digit_value msb * 16) + digit_value lsb))
