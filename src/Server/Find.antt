-- ===== src/Server/Find.antt =====
-- The serial numbers of a command, and the devices that they name.
use plasma_trim_cli.Base.{
  ℕ, zero, suc, ◌+◌, ◌-◌, ◌≤◌, ◌<◌, ◌≡◌, refl, ap, ◌∙◌, Bool, true, false, Option, none, some, List,
  [], ◌∷◌, ◌++◌, append_assoc, arith, ltb, length, get_or, All,
}
use plasma_trim_cli.Server.State.{DeviceState}
use plasma_trim_cli.Server.Command.{
  no_device, has_serial, char_above, take_serial, skip_gap, split_serials,
}

-- The first device from index `i` on that has the number, or none.
abbrev pub IsFirst : ℕ → List DeviceState → List ℕ → Option ℕ → Type 0
IsFirst i devices serial_number none = All (λ d. has_serial serial_number d ≡ false) devices
IsFirst i devices serial_number (some n) =
    (i ≤ n)
    × (n < i + length devices)
    × (has_serial serial_number (get_or devices (n - i) no_device) ≡ true)
    × ((k : ℕ) → k < n - i → has_serial serial_number (get_or devices k no_device) ≡ false)

-- Characters of a serial number: not below '0', and ASCII.
abbrev pub IsSerialChar : ℕ → Type 0
IsSerialChar c = (0x30 ≤ c) × (c < 128)

abbrev pub IsSerial : List ℕ → Type 0
IsSerial s = (1 ≤ length s) × (length s ≤ 9) × All IsSerialChar s

-- Serial numbers with a space between them.
abbrev pub join_serials : List ℕ → List (List ℕ) → List ℕ
join_serials s [] = s
join_serials s (t ∷ ts) = s ++ (b' ' ∷ join_serials t ts)

take_serial_lem :
    (s : List ℕ) (c : ℕ) (rest : List ℕ)
    → All IsSerialChar s
    → char_above 0x20 c ≡ false
    → take_serial (s ++ (c ∷ rest)) ≡ (s, c ∷ rest)
unfolding take_serial
take_serial_lem [] c rest h e = rw e refl
take_serial_lem (x ∷ s) c rest h e =
    let above : char_above 0x20 x ≡ true = ground (arith, h.0) in
    rw above (rw (take_serial_lem s c rest h.1 e) refl)

-- One more serial number.
abbrev put : List ℕ → Option (List (List ℕ)) → Option (List (List ℕ))
put s none = none
put s (some more) = some (s ∷ more)

split_round :
    (fuel : ℕ) (s : List ℕ) (c : ℕ) (rest : List ℕ)
    → IsSerial s
    → char_above 0x20 c ≡ false
    → split_serials (suc fuel) (s ++ (c ∷ rest)) ≡ put s (split_serials fuel (skip_gap (c ∷ rest)))
unfolding split_serials
split_round fuel [] c rest h e = absurd (omega (arith, h.0))
split_round fuel (x ∷ s) c rest h e =
    let above : char_above 0x19 x ≡ true = ground (arith, h.2.0) in
    ap (λ b. after b (take_serial (x ∷ (s ++ (c ∷ rest))))) above
    ∙ ap (after true) (take_serial_lem (x ∷ s) c rest h.2 e)
    ∙ short (ltb 9 (length (x ∷ s))) (ground (arith, h.1))
  where
    round : Bool → List ℕ → List ℕ → Option (List (List ℕ))
    round long serial_number more = elim long [
      | true ↦ none
      | false ↦ put serial_number (split_serials fuel (skip_gap more))
    ]

    after : Bool → List ℕ × List ℕ → Option (List (List ℕ))
    after b p = elim b [
      | false ↦ some []
      | true ↦ elim (ltb 9 (length p.0)) [
        | true ↦ none
        | false ↦ elim (split_serials fuel (skip_gap p.1)) [
          | none ↦ none
          | some more ↦ some (p.0 ∷ more)
        ]
      ]
    ]

    short : (b : Bool) → b ≡ false → round b (x ∷ s) (c ∷ rest) ≡ round false (x ∷ s) (c ∷ rest)
    short b same = ap (λ b. round b (x ∷ s) (c ∷ rest)) same

skip_space : (x : ℕ) (rest : List ℕ) → IsSerialChar x → skip_gap (b' ' ∷ x ∷ rest) ≡ x ∷ rest
unfolding skip_gap
skip_space x rest h = ground (arith, h)

skip-join :
    (s : List ℕ) (ts : List (List ℕ)) (rest : List ℕ)
    → IsSerial s
    → skip_gap (b' ' ∷ (join_serials s ts ++ rest)) ≡ join_serials s ts ++ rest
skip-join [] ts rest h = absurd (omega (arith, h.0))
skip-join (x ∷ s) [] rest h = skip_space x (s ++ rest) h.2.0
skip-join (x ∷ s) (t ∷ ts) rest h = skip_space x ((s ++ (b' ' ∷ join_serials t ts)) ++ rest) h.2.0

split_end : (fuel : ℕ) (tail : List ℕ) → split_serials (suc fuel) (skip_gap (0 ∷ tail)) ≡ some []
unfolding split_serials skip_gap
split_end fuel tail = refl

-- runCommand reads the serial numbers that a client writes with a space between them: exactly these, in
-- their order, whatever stands behind the end of the line. They are of ASCII characters from '0' on, none
-- is empty or has more than 9 characters, and fuel for one round more than there are numbers is enough.
pub split_serials-join_serials :
    (fuel : ℕ) (s : List ℕ) (ts : List (List ℕ)) (tail : List ℕ)
    → length ts + 1 < fuel
    → All IsSerial (s ∷ ts)
    → split_serials fuel (join_serials s ts ++ (0 ∷ tail)) ≡ some (s ∷ ts)
split_serials-join_serials zero s ts tail k h = absurd (omega (arith, k))
split_serials-join_serials (suc zero) s ts tail k h = absurd (omega (arith, k))
split_serials-join_serials (suc (suc fuel)) s [] tail k h =
    split_round (suc fuel) s 0 tail h.0 refl ∙ ap (put s) (split_end fuel tail)
split_serials-join_serials (suc (suc fuel)) s (t ∷ ts) tail k h =
    ap (split_serials (suc (suc fuel))) (append_assoc s (b' ' ∷ join_serials t ts) (0 ∷ tail))
    ∙ split_round (suc fuel) s b' ' (join_serials t ts ++ (0 ∷ tail)) h.0 refl
    ∙ ap (λ x. put s (split_serials (suc fuel) x)) (skip-join t ts (0 ∷ tail) h.1.0)
    ∙ ap (put s) (split_serials-join_serials (suc fuel) t ts tail (omega (arith, k)) h.1)
