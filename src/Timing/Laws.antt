-- ===== src/Timing/Laws.antt =====
-- The tables of hold and fade.
use plasma_trim_cli.Base.{ℕ, ◌-◌, ◌≤◌, ◌≡◌, [], ◌∷◌, arith, same_text}
use plasma_trim_cli.Timing.{hold_time, fade_pace}

-- A letter from a to f names the same time in either case, for hold and for fade.
pub times_in_either_case :
    (c : ℕ)
    → b'a' ≤ c
    → c ≤ b'f'
    → (hold_time (c ∷ []) ≡ hold_time ((c - 32) ∷ []))
      × (fade_pace (c ∷ []) ≡ fade_pace ((c - 32) ∷ []))
unfolding hold_time fade_pace same_text
times_in_either_case c h k = ground arith
