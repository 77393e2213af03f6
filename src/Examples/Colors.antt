-- ===== src/Examples/Colors.antt =====
-- Colours to try the theorems on.
use plasma_trim_cli.Base.{
  ℕ, ◌+◌, ◌≡◌, refl, ◌≢◌, inl, true, List, [], ◌∷◌, ◌++◌, arith, replicate, codes,
}
use plasma_trim_cli.Color.{make_color, make_human_color, print_color}
use plasma_trim_cli.Color.Squeeze.{squeeze}
use plasma_trim_cli.Color.Format.{IsColor, make_color-IsColor}
use plasma_trim_cli.Color.Digits.{AllBytes, AllBytes-get_or, IsBytes}
use plasma_trim_cli.Color.RoundTrip.{
  color_bytes, make_color-print_color, make_color-make_human_color,
}
use plasma_trim_cli.Sequence.Slot.{times_byte-hex_digit, times_byte_letter}
use plasma_trim_cli.Sequence.{times_byte}
use plasma_trim_cli.Examples.Checks.{bytes, text}
use plasma_trim_cli.Hex.{hex_digit}

-- "F 80" with more memory behind it.
abbrev orange : List ℕ
orange = codes "F 80"

make_color-IsColor_example :
    IsColor true (squeeze orange) (make_color (orange ++ (0 ∷ 65 ∷ [])) true)
unfolding squeeze
make_color-IsColor_example =
    make_color-IsColor true orange (65 ∷ []) (text orange refl) (omega arith) (omega arith)

-- A report with a colour: the bytes 1 to 24.
abbrev shown : List ℕ
shown = 0x01 ∷ 0xFF ∷ 0x80 ∷ replicate 30 0x0A

shown-AllBytes : AllBytes (color_bytes shown)
shown-AllBytes k = AllBytes-get_or shown (bytes shown refl) (k + 1)

make_color-print_color_example :
    IsBytes true (color_bytes shown) (make_color (print_color shown) true)
make_color-print_color_example = make_color-print_color shown shown-AllBytes

make_color-make_human_color_example :
    IsBytes true (color_bytes shown) (make_color (make_human_color (print_color shown)) true)
make_color-make_human_color_example = make_color-make_human_color shown shown-AllBytes

times_byte-hex_digit_example : times_byte (hex_digit 3) (hex_digit 9) ≡ 0x39
times_byte-hex_digit_example = times_byte-hex_digit 3 9 (omega arith) (omega arith)

times_byte_letter_example : times_byte (hex_digit 12) (hex_digit 2) ≢ 0xC2
times_byte_letter_example = times_byte_letter 12 2 (omega arith) (omega arith) (inl (omega arith))
