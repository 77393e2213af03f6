-- ===== src/Examples/Checks.antt =====
-- Conditions on the members of a concrete list, by computation.
use plasma_trim_cli.Base.{
  ℕ, ◌≤◌, ◌≡◌, ◌≢◌, Bool, true, ◌&&◌, List, [], ◌∷◌, arith, ltb, leb, length, All, IsByte,
}
use plasma_trim_cli.Server.Find.{IsSerialChar, IsSerial}

abbrev pub all_by : (ℕ → Bool) → List ℕ → Bool
all_by f [] = true
all_by f (x ∷ xs) = f x && all_by f xs

pub bytes : (xs : List ℕ) → all_by (λ b. ltb b 256) xs ≡ true → All IsByte xs
bytes [] h = tt
bytes (x ∷ xs) h = (ground arith, bytes xs (ground arith))

pub text : (xs : List ℕ) → all_by (λ c. ltb 0 c) xs ≡ true → All (λ c. c ≢ 0) xs
text [] h = tt
text (x ∷ xs) h = (ground arith, text xs (ground arith))

serial_chars : (xs : List ℕ) → all_by (λ c. leb 0x30 c && ltb c 128) xs ≡ true → All IsSerialChar xs
serial_chars [] h = tt
serial_chars (x ∷ xs) h = ((ground arith, ground arith), serial_chars xs (ground arith))

pub serial :
    (xs : List ℕ)
    → all_by (λ c. leb 0x30 c && ltb c 128) xs ≡ true
    → 1 ≤ length xs
    → length xs ≤ 9
    → IsSerial xs
serial xs h k l = (k, l, serial_chars xs h)
