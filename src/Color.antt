-- ===== src/Color.antt =====
-- The colour functions of src/ptrim-lib.cc: makeHumanColor and makeColor. A `char *` is the list of
-- the bytes from the pointer on, its terminator and what lies behind it included.
pub mod Squeeze
pub mod Strip
pub mod Format
pub mod Digits
pub mod RoundTrip
pub mod Memory
use plasma_trim_cli.Base.{
  ℕ, zero, suc, ◌+◌, ◌-◌, ◌*◌, ◌/◌, Bool, true, false, Option, none, some, List, [], ◌∷◌, ltb, ◌==◌,
  if◌then◌else◌, length, get_or, set, replicate, for_by, u8, c_string,
}
use plasma_trim_cli.Hex.{high_digit, low_digit, byte_value}

-- makeHumanColor: the `s` of the source is the round number `i / 6`.
unfoldable pub make_human_color : List ℕ → List ℕ
unfolding for_by
make_human_color color_data =
    for_by 8 0 6
      (λ i color.
        let filled =
          for_by 6 0 1 (λ j c. set c (i + j + i / 6) (get_or color_data (i + j) 0)) color in
        if ltb (i + 6) 48 then set filled (i + 6 + i / 6) b' ' else filled)
      (replicate 56 0)

-- `while (color[i + offset] == ' ') offset++`, with `offset` an `unsigned char`. `none` is no
-- answer of the program: the fuel ran out.
unfoldable pub skip_spaces : ℕ → List ℕ → ℕ → ℕ → Option ℕ
skip_spaces zero color i offset = none
skip_spaces (suc fuel) color i offset =
    let more = skip_spaces fuel color i (u8 (offset + 1)) in
    if get_or color (i + offset) 0 == b' ' then more else some offset

-- The loop that strips the spaces in place, with `i` an `unsigned char` too. It returns the final
-- `offset` and the memory at `color`.
unfoldable pub strip_spaces : ℕ → ℕ → ℕ → ℕ → List ℕ → Option (ℕ × List ℕ)
strip_spaces zero len i offset color = none
strip_spaces (suc fuel) len i offset color = elim (ltb (i + offset) len) [
  | true ↦ elim (skip_spaces 256 color i offset) [
    | none ↦ none
    | some offset' ↦
        strip_spaces fuel len (u8 (i + 1)) offset' (set color i (get_or color (i + offset') 0))
  ]
  | false ↦ some (offset, color)
]

-- `color_standardized` after `memset`.
abbrev pub blank : List ℕ
blank = replicate 49 0

-- The four cases of makeColor by the length that is left, each for both values of `full_length`:
-- what they write to `color_standardized`.
unfoldable pub standardize : ℕ → Bool → List ℕ → List ℕ
unfolding for_by
standardize len full_length color =
    if ltb len 6
    then (if full_length
        then for_by 8 0 6
            (λ i t.
              for_by 3 0 2
                (λ j u.
                  set (set u (i + j) (get_or color (j / 2) 0)) (i + j + 1) (get_or color (j / 2) 0))
                t)
            blank
        else for_by 8 0 3 (λ i t. for_by 3 0 1 (λ j u. set u (i + j) (get_or color j 0)) t) blank)
    else if ltb len 24
    then (if full_length
        then for_by 8 0 6 (λ i t. for_by 6 0 1 (λ j u. set u (i + j) (get_or color j 0)) t) blank
        else for_by 8 0 3 (λ i t. for_by 3 0 2 (λ j u. set u (i + j / 2) (get_or color j 0)) t)
            blank)
    else if ltb len 48
    then (if full_length
        then for_by 24 0 1
            (λ i t. set (set t (i * 2) (get_or color i 0)) (i * 2 + 1) (get_or color i 0)) blank
        else for_by 24 0 1 (λ i t. set t i (get_or color i 0)) blank)
    else (if full_length
        then for_by 48 0 1 (λ i t. set t i (get_or color i 0)) blank
        else for_by 24 0 1 (λ i t. set t i (get_or color (i * 2) 0)) blank)

-- The last loop of makeColor. Its last round reads `color_standardized[49]`, one byte behind the
-- array; that goes into `buf[24]`, which no caller reads, and is 0 here.
unfoldable pub pack_digits : List ℕ → List ℕ
unfolding for_by
pack_digits digits =
    for_by 25 0 2
      (λ i buf. set buf (i / 2) (byte_value (get_or digits i 0) (get_or digits (i + 1) 0)))
      (replicate 26 0)

-- makeColor: the 26 bytes of `buf`, and the memory at `color`, which is stripped in place.
unfoldable pub make_color : List ℕ → Bool → Option (List ℕ × List ℕ)
make_color color full_length =
    let len = length (c_string color) in
    elim (strip_spaces 256 len 0 0 color) [
      | none ↦ none
      | some (offset, color') ↦
          some (pack_digits (standardize (len - offset) full_length color'), color')
    ]

-- The loop of getColor: the bytes 1 to 24 of a report as 48 digits and a terminator.
unfoldable pub print_color : List ℕ → List ℕ
unfolding for_by
print_color cmd =
    for_by 24 0 1
      (λ i buf.
        set (set buf (i * 2) (high_digit (get_or cmd (i + 1) 0))) (i * 2 + 1)
          (low_digit (get_or cmd (i + 1) 0)))
      (replicate 49 0)
