-- ===== src/Sequence/Endless.antt =====
-- The line number of upload is an `unsigned char`: a file with 256 lines that are not empty is never
-- left.
use plasma_trim_cli.Base.{
  ℕ, zero, suc, ◌<◌, ◌≡◌, refl, inl, inr, Bool, false, Option, none, some, List, arith, ◌==◌,
  Bool-cases,
}
use plasma_trim_cli.Machine.{Machine, World, M, ◌>>=◌, pure}
use plasma_trim_cli.Machine.Partial.{Unless, Unless->>=, trivially}
use plasma_trim_cli.Sequence.{
  UploadState, UploadCall, line_of, is_last, read_version, next_line, shift_columns, is_slot_line,
  send_slot, settings_line, upload_round, upload_loop,
}

-- No line below 256 is empty, and the version is known.
pub record IsLong (file : List (List ℕ)) : Type 0 where
  pub lines : (n : ℕ) → n < 256 → is_last (line_of file n) ≡ false
  pub multi : Bool
  pub version : read_version (line_of file 1) ≡ some multi

-- Another round follows.
abbrev Continues : Option UploadState → Type 0
Continues none = ⊥
Continues (some u) = u.line_number < 256

module _ {m : Machine} where
  >>=-eq-none :
      {A B : Type 0} (f : M m A) (g : A → M m B) (w : World m) (P : A → Type 0)
      → Unless P (f w)
      → ((a : A) (v : World m) → P a → g a v ≡ none)
      → (f >>= g) w ≡ none
  >>=-eq-none {A} {B} f g w P h k = go (f w) h
    where
      go :
          (r : Option (A × World m))
          → Unless P r
          → ◌≡◌ {A = Option (B × World m)} (elim r [ none ↦ none | some (a, w') ↦ g a w' ]) none
      go none h' = refl
      go (some (a, v)) h' = k a v h'

  then_next :
      (f : M m UploadState) (w : World m)
      → Unless Continues ((f >>= λ v. pure (some (next_line v))) w)
  then_next f w =
      Unless->>= f (λ v. pure (some (next_line v))) w (λ _. Unit {0}) Continues (trivially (f w))
        (λ a v _. omega arith)

  upload_round-Continues :
      (call : UploadCall) (file : List (List ℕ)) (u : UploadState) (w : World m)
      → IsLong file
      → Unless Continues (upload_round call (line_of file u.line_number) u w)
  unfolding upload_round
  upload_round-Continues call file u w long = elim (Bool-cases (u.line_number == 1)) [
    | inl e ↦
        let one : u.line_number ≡ 1 = ground arith in
        let known : read_version (line_of file u.line_number) ≡ some long.multi =
          rw one long.version in
        rw (e, known) (omega arith)
    | inr e ↦ rw e (elim (Bool-cases (u.line_number == 2)) [
      | inl e' ↦ rw e' (then_next (settings_line call (line_of file u.line_number) u) w)
      | inr e' ↦ rw e' (elim (Bool-cases (is_slot_line u)) [
        | inl s ↦
            rw s
              (then_next (send_slot call.handle (line_of file u.line_number) (shift_columns u)) w)
        | inr s ↦ rw s (omega arith)
      ])
    ])
  ]

  -- The line number of upload wraps at 256: on a file of a known version whose first 256 lines are not
  -- empty its loop never ends, from any of these lines on, however many rounds it is given.
  pub upload_loop-endless :
      (fuel : ℕ) (call : UploadCall) (file : List (List ℕ)) (u : UploadState) (w : World m)
      → IsLong file
      → u.line_number < 256
      → upload_loop fuel call file u w ≡ none
  unfolding upload_loop
  upload_loop-endless zero call file u w long h = refl
  upload_loop-endless (suc fuel) call file u w long h =
      rw (long.lines u.line_number h, upload_loop)
        (>>=-eq-none (upload_round call (line_of file u.line_number) u) _ w Continues
          (upload_round-Continues call file u w long)
          (round (λ t v c. upload_loop-endless fuel call file t v long c)))
    where
      round :
          ((t : UploadState) (v : World m)
            → t.line_number < 256
            → upload_loop fuel call file t v ≡ none)
          → (a : Option UploadState) (v : World m) → Continues a
          → (elim a as (λ _. M m (Option UploadState)) [
            | none ↦ pure none
            | some t ↦ upload_loop fuel call file t
          ])
              v
            ≡ none
      round ih none v c = absurd c
      round ih (some t) v c = ih t v c
