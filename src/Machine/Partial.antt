-- ===== src/Machine/Partial.antt =====
-- What holds of the result of a step, if there is one: for steps whose end depends on others.
use plasma_trim_cli.Base.{Option, none, some}
use plasma_trim_cli.Machine.{Machine, World, M, ◌>>=◌}

module _ {m : Machine} where
  -- The step does not end with a result that lacks `P`.
  abbrev pub Unless : {A : Type 0} → (A → Type 0) → Option (A × World m) → Type 0
  Unless P none = Unit
  Unless P (some (a, w)) = P a

  pub Unless->>= :
      {A B : Type 0} (f : M m A) (g : A → M m B) (w : World m) (P : A → Type 0) (Q : B → Type 0)
      → Unless P (f w)
      → ((a : A) (v : World m) → P a → Unless Q (g a v))
      → Unless Q ((f >>= g) w)
  Unless->>= {A} {B} f g w P Q h k = go (f w) h
    where
      go :
          (r : Option (A × World m))
          → Unless P r
          → Unless Q (elim r [ none ↦ none | some (a, w') ↦ g a w' ])
      go none h' = tt
      go (some (a, v)) h' = k a v h'

  pub trivially : {A : Type 0} (r : Option (A × World m)) → Unless (λ _. Unit {0}) r
  trivially none = tt
  trivially (some (a, w)) = tt

  -- A bind of which only the last part counts.
  pub Unless-then :
      {A B : Type 0} (f : M m A) (g : A → M m B) (w : World m) (Q : B → Type 0)
      → ((a : A) (v : World m) → Unless Q (g a v))
      → Unless Q ((f >>= g) w)
  Unless-then f g w Q k = Unless->>= f g w (λ _. Unit {0}) Q (trivially (f w)) (λ a v _. k a v)
