-- ===== src/Sequence/Line.antt =====
-- The texts of a sequence file.
use plasma_trim_cli.Base.{ℕ, zero, suc, ◌/◌, ◌%◌, List, [], ◌∷◌, ◌++◌, get_or, codes}
use plasma_trim_cli.Hex.{hex_digit}
use plasma_trim_cli.Decimal.{decimal_padded, hex_byte}

abbrev pub crlf : List ℕ
crlf = 13 ∷ 10 ∷ []

abbrev pub title_line : List ℕ
title_line = codes "PlasmaTrim RGB-8 Sequence"

abbrev pub simple_version : List ℕ
simple_version = codes "Version: Simple Sequence Format"

abbrev pub multiple_version : List ℕ
multiple_version = codes "Version: Multiple Sequence Format"

-- Bytes `j`, `j + 1`, … as two digits each.
unfoldable pub hex_bytes : ℕ → ℕ → List ℕ → List ℕ
hex_bytes zero j cmd = []
hex_bytes (suc n) j cmd = hex_byte (get_or cmd j 0) ++ hex_bytes n (suc j) cmd

-- The line that download prints for slot `i` from the report of the device.
unfoldable pub slot_line : ℕ → List ℕ → List ℕ
unfolding hex_bytes
slot_line i cmd =
    codes "slot "
    ++ (decimal_padded 2 i
        ++ (b' '
            ∷ hex_digit (get_or cmd 14 0 / 16)
            ∷ b' '
            ∷ hex_digit (get_or cmd 14 0 % 16)
            ∷ (codes " - " ++ (hex_bytes 12 2 cmd ++ crlf))))

-- The line of a slot that is not fetched.
unfoldable pub black_line : ℕ → List ℕ
black_line i =
    codes "slot " ++ (decimal_padded 2 i ++ (codes " 0 0 - 000000000000000000000000" ++ crlf))
