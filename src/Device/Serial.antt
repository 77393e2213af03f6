-- ===== src/Device/Serial.antt =====
-- The serial number that getSerial prints.
use plasma_trim_cli.Base.{
  ℕ, ◌+◌, ◌*◌, ◌/◌, ◌%◌, ◌^◌, ◌≡◌, refl, ap, ◌∙◌, ◌≢◌, List, [], ◌∷◌, ◌++◌, arith, length, get_or,
  All, IsByte, c_string,
}
use plasma_trim_cli.Hex.{hex_digit, high_digit, low_digit, digit_value}
use plasma_trim_cli.Hex.Laws.{digit_value-hex_digit}
use plasma_trim_cli.Color.Format.{c_string_lem}
use plasma_trim_cli.Device.{print_serial}

-- The number that hexadecimal digits stand for.
unfoldable pub hex_value : List ℕ → ℕ → ℕ
hex_value [] acc = acc
hex_value (c ∷ cs) acc = hex_value cs (acc * 16 + digit_value c)

-- The two digits of a byte.
abbrev pub pair : ℕ → List ℕ → List ℕ
pair b t = high_digit b ∷ low_digit b ∷ t

serial_text : ℕ → ℕ → ℕ → ℕ → List ℕ
serial_text a b c d = pair a (pair b (pair c (pair d [])))

print_serial-table :
    (cmd : List ℕ)
    → print_serial cmd
      ≡ serial_text (get_or cmd 4 0) (get_or cmd 3 0) (get_or cmd 2 0) (get_or cmd 1 0) ++ (0 ∷ [])
unfolding print_serial serial_text
print_serial-table cmd = refl

hex_digit_pos : (n : ℕ) → hex_digit n ≢ 0
unfolding hex_digit
hex_digit_pos n = ground arith

pair_nonzero : (b : ℕ) (t : List ℕ) → All (λ x. x ≢ 0) t → All (λ x. x ≢ 0) (pair b t)
pair_nonzero b t h = (hex_digit_pos _, (hex_digit_pos _, h))

serial_text_nonzero : (a b c d : ℕ) → All (λ x. x ≢ 0) (serial_text a b c d)
unfolding serial_text
serial_text_nonzero a b c d =
    pair_nonzero a (pair b (pair c (pair d [])))
      (pair_nonzero b (pair c (pair d [])) (pair_nonzero c (pair d []) (pair_nonzero d [] tt)))

hex_value-pair :
    (b : ℕ) (t : List ℕ) (acc : ℕ)
    → IsByte b
    → hex_value (pair b t) acc ≡ hex_value t (acc * 256 + b)
unfolding hex_value
hex_value-pair b t acc h = ap (hex_value t) (
    omega (
      arith,
      digit_value-hex_digit (b / 16) (omega arith),
      digit_value-hex_digit (b % 16) (omega arith),
    ))

hex_value-serial_text :
    (a b c d : ℕ)
    → IsByte a
    → IsByte b
    → IsByte c
    → IsByte d
    → hex_value (serial_text a b c d) 0 ≡ d + 2 ^ 8 * c + 2 ^ 16 * b + 2 ^ 24 * a
unfolding serial_text
hex_value-serial_text a b c d ha hb hc hd =
    hex_value-pair a _ 0 ha
    ∙ hex_value-pair b _ _ hb
    ∙ hex_value-pair c _ _ hc
    ∙ hex_value-pair d [] _ hd
    ∙ unfold hex_value in omega arith

-- The text has 8 digits, and they are those of the bytes 1 to 4 read as a little-endian number.
pub print_serial-hex_value :
    (cmd : List ℕ)
    → ((k : ℕ) → IsByte (get_or cmd k 0))
    → (length (c_string (print_serial cmd)) ≡ 8)
      × (hex_value (c_string (print_serial cmd)) 0
          ≡ get_or cmd 1 0
            + 2 ^ 8 * get_or cmd 2 0
            + 2 ^ 16 * get_or cmd 3 0
            + 2 ^ 24 * get_or cmd 4 0)
print_serial-hex_value cmd bytes = rw (print_serial-table cmd) (
    rw
      (c_string_lem _ []
        (serial_text_nonzero (get_or cmd 4 0) (get_or cmd 3 0) (get_or cmd 2 0) (get_or cmd 1 0)))
      (
        unfold serial_text in refl,
        hex_value-serial_text (get_or cmd 4 0) (get_or cmd 3 0) (get_or cmd 2 0) (get_or cmd 1 0)
            (bytes 4) (bytes 3) (bytes 2) (bytes 1),
      ))
