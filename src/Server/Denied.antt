-- ===== src/Server/Denied.antt =====
-- What a lock keeps other clients from, and how it is broken.
use plasma_trim_cli.Base.{ℕ, ◌≡◌, refl, ap, ◌∙◌, false, none, some, List, [], ◌∷◌, take, All, codes}
use plasma_trim_cli.Machine.{Machine, World, M, ◌>>=◌, pure, send}
use plasma_trim_cli.Server.State.{Status, DeviceState, is_socket, Instance, is_command, answer}
use plasma_trim_cli.Server.Run.{run_thread}

-- A command of a client that the device is locked against, and that does not break the lock.
pub record IsLockedOut (d : DeviceState) (instance_data : Instance) : Type 0 where
  pub locked : d.status ≡ Status.lock
  pub other : is_socket d.lock instance_data.output ≡ false
  pub no_force : is_command instance_data 1 (codes "force unlock") ≡ false

-- The answer "[serial permission denied]", newest part first.
abbrev pub denied : Instance → DeviceState → List (ℕ × List ℕ) → List (ℕ × List ℕ)
denied instance_data d before =
    (instance_data.output, codes " permission denied]\r\n")
    ∷ (instance_data.output, take 10 d.serial)
    ∷ (instance_data.output, codes "[")
    ∷ before

abbrev pub denied_all : List Instance → DeviceState → List (ℕ × List ℕ) → List (ℕ × List ℕ)
denied_all [] d before = before
denied_all (i ∷ is) d before = denied_all is d (denied i d before)

module _ {m : Machine} (shade : ℕ → ℕ → ℕ → ℕ → ℕ) where
  -- Commands of any clients for one device, one after the other.
  abbrev pub run_all : List Instance → DeviceState → M m DeviceState
  run_all [] d = pure d
  run_all (i ∷ is) d = run_thread shade i d >>= λ d'. run_all is d'

  run_thread-denied :
      (instance_data : Instance) (d : DeviceState) (w : World m)
      → IsLockedOut d instance_data
      → run_thread shade instance_data d w
        ≡ some (d, record w { replies = denied instance_data d w.replies })
  unfolding run_thread answer send
  run_thread-denied instance_data d w out = rw (out.locked, out.other, out.no_force) refl

  -- While a device is locked, the commands of other clients but "force unlock" change nothing of it,
  -- send nothing to any device, wait for nothing and are each answered with "permission denied".
  pub run_all-denied :
      (commands : List Instance) (d : DeviceState) (w : World m)
      → All (IsLockedOut d) commands
      → run_all commands d w ≡ some (d, record w { replies = denied_all commands d w.replies })
  run_all-denied [] d w h = refl
  run_all-denied (i ∷ is) d w h =
      ap (λ r. elim r [ none ↦ none | some (d', w') ↦ run_all is d' w' ])
        (run_thread-denied i d w h.0)
      ∙ run_all-denied is d (record w { replies = denied i d w.replies }) h.1
