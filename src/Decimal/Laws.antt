-- ===== src/Decimal/Laws.antt =====
-- Decimal numbers are written with as many digits as they need, and atoi reads them back.
use plasma_trim_cli.Base.{
  ℕ, ◌+◌, ◌/◌, ◌%◌, ◌≤◌, ◌<◌, ◌≡◌, inl, inr, [], ◌∷◌, arith, ltb, lt→ltb, ltb→lt, ltb→ge, ge→ltb,
  Bool-cases,
}
use plasma_trim_cli.Decimal.{decimal, decimal_padded}

pub decimal_small : (n : ℕ) → n < 10 → decimal n ≡ (n + 48) ∷ []
unfolding decimal
decimal_small n h = rw (lt→ltb n 10 h)

pub decimal_two : (n : ℕ) → 10 ≤ n → n < 100 → decimal n ≡ (n / 10 + 48) ∷ (n % 10 + 48) ∷ []
unfolding decimal
decimal_two n h k = rw (ge→ltb n 10 h) (rw (lt→ltb (n / 10) 10 (omega arith)))

-- %02d of a number below 100 has two digits.
pub decimal_padded_two : (n : ℕ) → n < 100 → decimal_padded 2 n ≡ (n / 10 + 48) ∷ (n % 10 + 48) ∷ []
unfolding decimal_padded
decimal_padded_two n h = elim (Bool-cases (ltb n 10)) [
  | inl small ↦ rw (decimal_small n (ltb→lt n 10 small)) (
      let zero_ten : n / 10 ≡ 0 = omega (arith, ltb→lt n 10 small) in
      let same : n % 10 ≡ n = omega (arith, ltb→lt n 10 small) in rw (zero_ten, same))
  | inr large ↦ rw (decimal_two n (ltb→ge n 10 large) h)
]
