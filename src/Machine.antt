-- ===== src/Machine.antt =====
-- What the program cannot see: hidapi with the devices behind it, and memory that nobody initialised.
-- The program's steps are functions on a world that records what was sent, printed and waited for.
pub mod Laws
pub mod Partial
pub mod Queue
use plasma_trim_cli.Base.{
  ℕ, zero, suc, ◌+◌, Bool, true, false, Option, none, some, List, ◌∷◌, ◌++◌, length, take, drop,
}

-- What one call of hid_read brings (hidapi.h): 0 for no packet, a report, or -1.
pub data Reading : Type 0 where
  idle : Reading
  report : List ℕ → Reading
  failed : Reading

-- hid_write and hid_read on a handle, on everything outside of the program. `stale_char` is what an
-- uninitialised `char` on the stack happens to hold. `patience` is no part of the outside: it is the
-- fuel of the loops that poll a device.
pub record Machine : Type 1 where
  pub Outside : Type 0
  pub hid_write : ℕ → List ℕ → Outside → Outside
  pub hid_read : ℕ → Outside → Reading × Outside
  pub stale_char : Outside → ℕ
  pub patience : ℕ

-- `sent` is newest first: a handle and the 32 bytes that hid_write was given. `slept` counts the
-- milliseconds of all `delay` calls. `replies`, newest first too, is what `send` was given: a socket
-- and the bytes.
pub record World (m : Machine) : Type 0 where
  pub outside : m.Outside
  pub sent : List (ℕ × List ℕ)
  pub slept : ℕ
  pub stdout : List ℕ
  pub stderr : List ℕ
  pub replies : List (ℕ × List ℕ)

-- `none` is no answer of the program: a loop used up its fuel.
abbrev pub M : Machine → Type 0 → Type 0
M m A = World m → Option (A × World m)

-- A report of at most 32 bytes lands at the front of `cmd`.
abbrev pub received : List ℕ → List ℕ → List ℕ
received bytes cmd = take 32 (bytes ++ drop (length bytes) cmd)

module _ {m : Machine} where
  infixl 5 ◌>>=◌ ◌>>◌
  abbrev pub pure : {A : Type 0} → A → M m A
  pure a w = some (a, w)

  abbrev pub ◌>>=◌ : {A B : Type 0} → M m A → (A → M m B) → M m B
  ◌>>=◌ f g w = elim (f w) [ none ↦ none | some (a, w') ↦ g a w' ]

  abbrev pub ◌>>◌ : {B : Type 0} → M m (Unit {0}) → M m B → M m B
  f >> g = f >>= λ _. g

  -- A loop without an end, or a fuel that ran out.
  abbrev pub stuck : {A : Type 0} → M m A
  stuck w = none

  abbrev pub or_stuck : {A : Type 0} → Option A → M m A
  or_stuck none w = none
  or_stuck (some a) w = some (a, w)

  abbrev pub when : Bool → M m (Unit {0}) → M m (Unit {0})
  when true f = f
  when false f = pure tt

  unfoldable pub delay : ℕ → M m (Unit {0})
  delay ms w = some (tt, record w { slept = w.slept + ms })

  unfoldable pub printf : List ℕ → M m (Unit {0})
  printf text w = some (tt, record w { stdout = w.stdout ++ text })

  unfoldable pub fprintf_stderr : List ℕ → M m (Unit {0})
  fprintf_stderr text w = some (tt, record w { stderr = w.stderr ++ text })

  unfoldable pub write_report : ℕ → List ℕ → M m (Unit {0})
  write_report handle cmd w =
      some
        (tt, record w { outside = m.hid_write handle cmd w.outside; sent = (handle, cmd) ∷ w.sent })

  -- send, of `len` bytes at a pointer. The program also calls it with a null pointer, to end a record:
  -- that sends nothing.
  unfoldable pub send : ℕ → List ℕ → ℕ → M m (Unit {0})
  send socket text len w = some (tt, record w { replies = (socket, take len text) ∷ w.replies })

  -- The value of an uninitialised `char`.
  unfoldable pub uninitialised : M m ℕ
  uninitialised w = some (m.stale_char w.outside, w)

  -- `while (res == 0) { res = hid_read (handle, cmd, sizeof (cmd)); delay (1); }` from `res == 0` on,
  -- with fuel. It returns `cmd`, which only a report changes.
  unfoldable pub poll : ℕ → ℕ → List ℕ → M m (List ℕ)
  poll zero handle cmd w = none
  poll (suc fuel) handle cmd w =
      let w' = record w { outside = (m.hid_read handle w.outside).1; slept = w.slept + 1 } in
      elim ((m.hid_read handle w.outside).0) [
        | idle ↦ poll fuel handle cmd w'
        | report bytes ↦ some (received bytes cmd, w')
        | failed ↦ some (cmd, w')
      ]
