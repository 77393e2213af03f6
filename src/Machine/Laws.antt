-- ===== src/Machine/Laws.antt =====
-- Total correctness for the program's steps, and the one assumption on the devices.
use plasma_trim_cli.Base.{
  ℕ, zero, suc, ◌+◌, ◌≤◌, ◌≡◌, refl, ◌∙◌, Option, none, some, List, ◌∷◌, arith,
}
use plasma_trim_cli.Machine.{
  Machine, Reading, idle, report, failed, World, M, ◌>>=◌, poll, received,
}

-- A device answers after a command: within the patience of the loops, a read brings something.
abbrev pub Answered : (m : Machine) → ℕ → ℕ → m.Outside → Type 0
Answered m zero handle o = ⊥
Answered m (suc n) handle o = elim ((m.hid_read handle o).0) [
  | idle ↦ Answered m n handle (m.hid_read handle o).1
  | _ ↦ Unit
]

-- hid_read answers after every hid_write, whatever the state of the outside.
abbrev pub IsResponsive : Machine → Type 0
IsResponsive m =
    (handle : ℕ) (cmd : List ℕ) (o : m.Outside)
    → Answered m m.patience handle (m.hid_write handle cmd o)

module _ {m : Machine} where
  -- The step ends normally, and `P` holds of its result and of the world that it leaves.
  abbrev pub Returned : {A : Type 0} → Option (A × World m) → (A → World m → Type 0) → Type 0
  Returned none P = ⊥
  Returned (some (a, w)) P = P a w

  pub Returned_map :
      {A : Type 0} (r : Option (A × World m)) (P Q : A → World m → Type 0)
      → Returned r P
      → ((a : A) (w : World m) → P a w → Q a w)
      → Returned r Q
  Returned_map none P Q h k = absurd h
  Returned_map (some (a, w)) P Q h k = k a w h

  pub Returned-both :
      {A : Type 0} (r : Option (A × World m)) (P Q : A → World m → Type 0)
      → Returned r P
      → Returned r Q
      → Returned r (λ a w. P a w × Q a w)
  Returned-both none P Q h k = h
  Returned-both (some (a, w)) P Q h k = (h, k)

  -- What the step gives can be named.
  pub Returned-equation :
      {A : Type 0} (r : Option (A × World m)) (P : A → World m → Type 0)
      → Returned r P
      → Returned r (λ a w. (r ≡ some (a, w)) × P a w)
  Returned-equation none P h = h
  Returned-equation (some (a, w)) P h = (refl, h)

  pub Returned->>= :
      {A B : Type 0} (f : M m A) (g : A → M m B) (w : World m) (P : A → World m → Type 0)
      (Q : B → World m → Type 0)
      → Returned (f w) P
      → ((a : A) (w' : World m) → P a w' → Returned (g a w') Q)
      → Returned ((f >>= g) w) Q
  Returned->>= {A} {B} f g w P Q h k = go (f w) h
    where
      go :
          (r : Option (A × World m))
          → Returned r P
          → Returned (elim r [ none ↦ none | some (a, w') ↦ g a w' ]) Q
      go none h' = absurd h'
      go (some (a, w')) h' = k a w' h'

  -- What a poll leaves alone.
  pub record IsQuiet (w w' : World m) : Type 0 where
    pub sent : w'.sent ≡ w.sent
    pub stdout : w'.stdout ≡ w.stdout
    pub stderr : w'.stderr ≡ w.stderr
    pub replies : w'.replies ≡ w.replies
    pub slept : w.slept ≤ w'.slept

  pub IsQuiet-trans : {u v w : World m} → IsQuiet u v → IsQuiet v w → IsQuiet u w
  IsQuiet-trans a b = record {
    sent = b.sent ∙ a.sent;
    stdout = b.stdout ∙ a.stdout;
    stderr = b.stderr ∙ a.stderr;
    replies = b.replies ∙ a.replies;
    slept = omega (arith, a.slept, b.slept);
  }

  pub poll-IsQuiet :
      (fuel handle : ℕ) (cmd : List ℕ) (w : World m)
      → Answered m fuel handle w.outside
      → Returned (poll fuel handle cmd w) (λ _ w'. IsQuiet w w')
  unfolding poll
  poll-IsQuiet zero handle cmd w h = absurd h
  poll-IsQuiet (suc fuel) handle cmd w h =
      go ((m.hid_read handle w.outside).0) h (poll-IsQuiet fuel handle cmd w')
    where
      w' : World m
      w' = record w { outside = (m.hid_read handle w.outside).1; slept = w.slept + 1 }

      once : IsQuiet w w'
      once = record {
        sent = refl;
        stdout = refl;
        stderr = refl;
        replies = refl;
        slept = omega arith;
      }

      go :
          (r : Reading)
          → (elim r as (λ _. Type 0) [ idle ↦ Answered m fuel handle w'.outside | _ ↦ Unit ])
          → (Answered m fuel handle w'.outside
              → Returned (poll fuel handle cmd w') (λ _ v. IsQuiet w' v))
          → Returned
              (elim r [
                | idle ↦ poll fuel handle cmd w'
                | report bytes ↦ some (received bytes cmd, w')
                | failed ↦ some (cmd, w')
              ])
              (λ _ v. IsQuiet w v)
      go idle a ih =
          Returned_map (poll fuel handle cmd w') _ _ (ih a) (λ _ v q. IsQuiet-trans once q)
      go (report bytes) a ih = once
      go failed a ih = once

  -- A command is sent, and what comes back is read: one more report is on record.
  pub record IsSent (handle : ℕ) (cmd : List ℕ) (w w' : World m) : Type 0 where
    pub sent : w'.sent ≡ (handle, cmd) ∷ w.sent
    pub stdout : w'.stdout ≡ w.stdout
    pub stderr : w'.stderr ≡ w.stderr
    pub replies : w'.replies ≡ w.replies
    pub slept : w.slept ≤ w'.slept
