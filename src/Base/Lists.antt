-- ===== src/Base/Lists.antt =====
-- Lists measured and indexed by native numbers: a C array is a list, a read outside it gives the
-- default and a write outside it changes nothing.
use Prim.Native.Nat.{ℕ, zero, suc, ◌+◌, ◌≤◌, ◌<◌, min}
use mathlib.Core.Path.{◌≡◌, refl, ap, ap₂, ◌∙◌}
use mathlib.Core.Logic.{◌≢◌}
use mathlib.Core.List.{List, [], ◌∷◌, ◌++◌}
use native.Mathlib.Omega.{arith}

module _ {ℓ} {A : Type ℓ} where
  abbrev pub length : List A → ℕ
  length [] = 0
  length (x ∷ xs) = suc (length xs)

  abbrev pub get_or : List A → ℕ → A → A
  get_or [] i d = d
  get_or (x ∷ xs) zero d = x
  get_or (x ∷ xs) (suc i) d = get_or xs i d

  abbrev pub set : List A → ℕ → A → List A
  set [] i v = []
  set (x ∷ xs) zero v = v ∷ xs
  set (x ∷ xs) (suc i) v = x ∷ set xs i v

  abbrev pub take : ℕ → List A → List A
  take zero xs = []
  take (suc n) [] = []
  take (suc n) (x ∷ xs) = x ∷ take n xs

  abbrev pub drop : ℕ → List A → List A
  drop zero xs = xs
  drop (suc n) [] = []
  drop (suc n) (x ∷ xs) = drop n xs

  abbrev pub replicate : ℕ → A → List A
  replicate zero a = []
  replicate (suc n) a = a ∷ replicate n a

  -- The values of a counted loop `for (i = start; i < start + n; i++)`, in order.
  abbrev pub tabulate : ℕ → ℕ → (ℕ → A) → List A
  tabulate zero start f = []
  tabulate (suc n) start f = f start ∷ tabulate n (suc start) f

  abbrev pub All {κ} : (A → Type κ) → List A → Type κ
  All P [] = Unit {κ}
  All P (x ∷ xs) = P x × All P xs

module _ {ℓ} {A : Type ℓ} where
  pub length-append : (xs ys : List A) → length (xs ++ ys) ≡ length xs + length ys
  length-append [] ys = omega arith
  length-append (x ∷ xs) ys = omega (arith, length-append xs ys)

  pub length-set : (xs : List A) (i : ℕ) (v : A) → length (set xs i v) ≡ length xs
  length-set [] i v = refl
  length-set (x ∷ xs) zero v = refl
  length-set (x ∷ xs) (suc i) v = ap suc (length-set xs i v)

  pub get_or-set_self :
      (xs : List A) (i : ℕ) (v d : A) → i < length xs → get_or (set xs i v) i d ≡ v
  get_or-set_self [] i v d h = elim h [ ]
  get_or-set_self (x ∷ xs) zero v d h = refl
  get_or-set_self (x ∷ xs) (suc i) v d h = get_or-set_self xs i v d (omega arith)

  pub get_or-set_ne :
      (xs : List A) (i j : ℕ) (v d : A) → i ≢ j → get_or (set xs i v) j d ≡ get_or xs j d
  get_or-set_ne [] i j v d h = refl
  get_or-set_ne (x ∷ xs) zero zero v d h = absurd (h refl)
  get_or-set_ne (x ∷ xs) zero (suc j) v d h = refl
  get_or-set_ne (x ∷ xs) (suc i) zero v d h = refl
  get_or-set_ne (x ∷ xs) (suc i) (suc j) v d h = get_or-set_ne xs i j v d (λ e. h (ap suc e))

  pub get_or-append_left :
      (xs ys : List A) (i : ℕ) (d : A) → i < length xs → get_or (xs ++ ys) i d ≡ get_or xs i d
  get_or-append_left [] ys i d h = elim h [ ]
  get_or-append_left (x ∷ xs) ys zero d h = refl
  get_or-append_left (x ∷ xs) ys (suc i) d h = get_or-append_left xs ys i d (omega arith)

  -- The element behind a prefix.
  pub get_or-append_here :
      (xs ys : List A) (y d : A) (i : ℕ) → i ≡ length xs → get_or (xs ++ (y ∷ ys)) i d ≡ y
  get_or-append_here [] ys y d zero e = refl
  get_or-append_here [] ys y d (suc i) e = absurd (omega arith)
  get_or-append_here (x ∷ xs) ys y d zero e = absurd (omega arith)
  get_or-append_here (x ∷ xs) ys y d (suc i) e = get_or-append_here xs ys y d i (omega arith)

  pub set-append_here :
      (xs ys : List A) (y v : A) (i : ℕ) → i ≡ length xs → set (xs ++ (y ∷ ys)) i v ≡ xs ++ (v ∷ ys)
  set-append_here [] ys y v zero e = refl
  set-append_here [] ys y v (suc i) e = absurd (omega arith)
  set-append_here (x ∷ xs) ys y v zero e = absurd (omega arith)
  set-append_here (x ∷ xs) ys y v (suc i) e =
      ap (λ t. x ∷ t) (set-append_here xs ys y v i (omega arith))

  pub take-append-drop : (n : ℕ) (xs : List A) → take n xs ++ drop n xs ≡ xs
  take-append-drop zero xs = refl
  take-append-drop (suc n) [] = refl
  take-append-drop (suc n) (x ∷ xs) = rw (take-append-drop n xs)

  pub length-take : (n : ℕ) (xs : List A) → length (take n xs) ≡ min n (length xs)
  length-take zero xs = omega arith
  length-take (suc n) [] = omega arith
  length-take (suc n) (x ∷ xs) = omega (arith, length-take n xs)

  pub take_short : (n : ℕ) (xs : List A) → length xs ≤ n → take n xs ≡ xs
  take_short zero [] h = refl
  take_short zero (x ∷ xs) h = absurd (omega arith)
  take_short (suc n) [] h = refl
  take_short (suc n) (x ∷ xs) h = ap (λ t. x ∷ t) (take_short n xs (omega arith))

  pub length-replicate : (n : ℕ) (a : A) → length (replicate n a) ≡ n
  length-replicate zero a = refl
  length-replicate (suc n) a = ap suc (length-replicate n a)

  pub length-tabulate : (n s : ℕ) (f : ℕ → A) → length (tabulate n s f) ≡ n
  length-tabulate zero s f = refl
  length-tabulate (suc n) s f = ap suc (length-tabulate n (suc s) f)

  pub get_or-tabulate :
      (n s i : ℕ) (f : ℕ → A) (d : A) → i < n → get_or (tabulate n s f) i d ≡ f (s + i)
  get_or-tabulate zero s i f d h = elim h [ ]
  get_or-tabulate (suc n) s zero f d h = ap f (omega arith)
  get_or-tabulate (suc n) s (suc i) f d h =
      get_or-tabulate n (suc s) i f d (omega arith) ∙ ap f (omega arith)

  pub tabulate_ext :
      (n s : ℕ) (f g : ℕ → A)
      → ((j : ℕ) → s ≤ j → j < s + n → f j ≡ g j)
      → tabulate n s f ≡ tabulate n s g
  tabulate_ext zero s f g h = refl
  tabulate_ext (suc n) s f g h =
      ap₂ ◌∷◌ (h s (omega arith) (omega arith))
        (tabulate_ext n (suc s) f g (λ j p q. h j (omega arith) (omega arith)))

  pub get_or-tabulate_append :
      (n i : ℕ) (f : ℕ → A) (ys : List A) (d : A) → i < n → get_or (tabulate n 0 f ++ ys) i d ≡ f i
  get_or-tabulate_append n i f ys d h =
      get_or-append_left (tabulate n 0 f) ys i d (rw (length-tabulate n 0 f) h)
      ∙ get_or-tabulate n 0 i f d h
      ∙ ap f (omega arith)

  -- Two arrays of one length are equal if they agree at each index.
  pub get_or_ext :
      (d : A) (xs ys : List A)
      → length xs ≡ length ys
      → ((i : ℕ) → i < length xs → get_or xs i d ≡ get_or ys i d)
      → xs ≡ ys
  get_or_ext d [] [] e h = refl
  get_or_ext d [] (y ∷ ys) e h = absurd (omega arith)
  get_or_ext d (x ∷ xs) [] e h = absurd (omega arith)
  get_or_ext d (x ∷ xs) (y ∷ ys) e h =
      ap₂ ◌∷◌ (h 0 (omega arith))
        (get_or_ext d xs ys (omega arith) (λ i p. h (suc i) (omega arith)))

module _ {ℓ κ} {A : Type ℓ} (P : A → Type κ) where
  pub All-append : (xs ys : List A) → All P xs → All P ys → All P (xs ++ ys)
  All-append [] ys hx hy = hy
  All-append (x ∷ xs) ys hx hy = (hx.0, All-append xs ys hx.1 hy)

  pub All-tabulate :
      (n s : ℕ) (f : ℕ → A) → ((j : ℕ) → s ≤ j → j < s + n → P (f j)) → All P (tabulate n s f)
  All-tabulate zero s f h = tt
  All-tabulate (suc n) s f h = (
    h s (omega arith) (omega arith),
    All-tabulate n (suc s) f (λ j p q. h j (omega arith) (omega arith)),
  )

-- `for (i = start; …; i += step) s = body i s`, for a number of rounds.
unfoldable pub for_by {ℓ} : {S : Type ℓ} → ℕ → ℕ → ℕ → (ℕ → S → S) → S → S
for_by zero i step body s = s
for_by (suc n) i step body s = for_by n (i + step) step body (body i s)
