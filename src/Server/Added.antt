-- ===== src/Server/Added.antt =====
-- A device that monitorDevices opens.
use plasma_trim_cli.Base.{ℤ, negsuc, ℕ, ◌≡◌, refl, some, List, [], ◌∷◌, replicate}
use plasma_trim_cli.Machine.{Machine, World, M, ◌>>=◌}
use plasma_trim_cli.Machine.Laws.{Returned, Returned->>=, Returned-equation, IsResponsive, IsSent}
use plasma_trim_cli.Device.{command, get_serial, start_comm, get_name, get_brightness, start}
use plasma_trim_cli.Device.Laws.{setters-IsSent}
use plasma_trim_cli.Device.Info.{get_serial-IsSent, get_name-IsSent, get_brightness-IsSent}
use plasma_trim_cli.Server.State.{Status, DeviceState, no_notify}
use plasma_trim_cli.Server.Info.{to_clients}
use plasma_trim_cli.Server.Talk.{IsSpeech}
use plasma_trim_cli.Server.Announced.{announced, AllTold, to_clients-AllTold}
use plasma_trim_cli.Server.Monitor.{fill, tell_added, set_up}

-- The record of a device that has just been opened: it plays, nobody holds it, the temporary brightness
-- is the saved one, and there is nothing to tell.
pub record IsNew (handle : ℕ) (path : List ℕ) (d : DeviceState) : Type 0 where
  pub handle_kept : d.handle ≡ handle
  pub opened : d.open_device ≡ fill 32 path
  pub plays : d.status ≡ Status.play
  pub free : d.lock ≡ negsuc 0
  pub quiet : d.notify ≡ no_notify
  pub saved : d.temp_brightness ≡ d.brightness

-- The record of a device with what it has answered.
abbrev fresh : ℕ → List ℕ → List ℕ → List ℕ → ℕ → DeviceState
fresh handle path serial name brightness = record {
  handle = handle;
  open_device = fill 32 path;
  serial = fill 10 serial;
  name = fill 27 name;
  brightness = brightness;
  temp_brightness = brightness;
  status = Status.play;
  notify = no_notify;
  lock = negsuc 0;
}

-- The reports that it is sent, the last one first.
abbrev pub greeted : ℕ → List (ℕ × List ℕ) → List (ℕ × List ℕ)
greeted handle before =
    (handle, 0x02 ∷ replicate 31 0)
    ∷ (handle, 0x0C ∷ replicate 31 0)
    ∷ (handle, 0x09 ∷ replicate 31 0)
    ∷ (handle, 0x0A ∷ replicate 31 0)
    ∷ (handle, 0x0A ∷ replicate 31 0)
    ∷ before

-- The serial number, the name and the brightness are what the device answers, one after the other.
abbrev pub IsAnswered : {m : Machine} → ℕ → World m → DeviceState → Type 0
IsAnswered {m} handle w d =
    (v : World m) × (serial : List ℕ) × (v₁ : World m) × (name : List ℕ) × (v₂ : World m)
    × (v₃ : World m) × (start_comm handle w ≡ some (tt, v))
    × (get_serial handle v ≡ some (serial, v₁))
    × (get_name handle v₁ ≡ some (name, v₂))
    × (get_brightness handle v₂ ≡ some (d.brightness, v₃))
    × (d.serial ≡ fill 10 serial)
    × (d.name ≡ fill 27 name)

module _ {m : Machine} (responsive : IsResponsive m) where
  then_next :
      {A B : Type 0} (handle : ℕ) (f : M m A) (cmd : List ℕ) (k : A → M m B) (w : World m)
      (Q : B → World m → Type 0)
      → Returned (f w) (λ _ v. IsSent handle cmd w v)
      → ((a : A) (v : World m)
          → f w ≡ some (a, v)
          → v.sent ≡ (handle, cmd) ∷ w.sent
          → Returned (k a v) Q)
      → Returned ((f >>= k) w) Q
  then_next handle f cmd k w Q h next =
      Returned->>= f k w (λ a v. (f w ≡ some (a, v)) × IsSent handle cmd w v) Q
        (Returned-equation (f w) _ h) (λ a v (e, s). next a v e (s.sent))

  start_comm-IsSent :
      (handle : ℕ) (w : World m)
      → Returned (start_comm handle w) (λ _ v. IsSent handle (command 0x0A) w v)
  unfolding start_comm
  start_comm-IsSent handle w =
      Returned->>= (get_serial handle) _ w (λ _ v. IsSent handle (command 0x0A) w v) _
        (get_serial-IsSent responsive handle w) (λ _ v s. s)

  -- A new device is asked for its serial number, twice, its name and its brightness, and started, if it
  -- answers. Its record is that of a device that plays and is free, with the serial number, the name and
  -- the brightness that it has answered. Every client, that is every socket above 0, has been sent
  -- "[added]" and "[/added]" and, if the serial number is not empty, the serial number and the name.
  pub set_up-IsNew :
      (sockets : List ℤ) (handle : ℕ) (path : List ℕ) (w : World m)
      → Returned (set_up sockets handle path w) (λ d v.
        IsNew handle path d
        × IsAnswered handle w d
        × AllTold sockets (announced d) v.replies
        × (v.sent ≡ greeted handle w.sent))
  unfolding set_up
  set_up-IsNew sockets handle path w =
      then_next handle (start_comm handle) (command 0x0A) _ w _ (start_comm-IsSent handle w)
        (λ _ v₁ e₁ s₁.
          then_next handle (get_serial handle) (command 0x0A) _ v₁ _
            (get_serial-IsSent responsive handle v₁)
            (λ serial v₂ e₂ s₂.
              then_next handle (get_name handle) (command 0x09) _ v₂ _
                (get_name-IsSent responsive handle v₂)
                (λ name v₃ e₃ s₃.
                  then_next handle (get_brightness handle) (command 0x0C) _ v₃ _
                    (get_brightness-IsSent responsive handle v₃)
                    (λ b v₄ e₄ s₄.
                      then_next handle (start handle) (command 0x02) _ v₄ _
                        ((setters-IsSent responsive handle [] 0 0 v₄).0)
                        (λ _ v₅ e₅ s₅.
                          Returned->>=
                            (to_clients sockets (tell_added (fresh handle path serial name b))) _ v₅
                            (λ _ v.
                              IsSpeech v₅ v
                              × AllTold sockets (announced (fresh handle path serial name b))
                                  v.replies)
                            _ (to_clients-AllTold sockets (fresh handle path serial name b) v₅)
                            (λ _ v₆ (s₆, told). (
                              record {
                                handle_kept = refl;
                                opened = refl;
                                plays = refl;
                                free = refl;
                                quiet = refl;
                                saved = refl;
                              },
                              (v₁, serial, v₂, name, v₃, v₄, e₁, e₂, e₃, e₄, refl, refl),
                              told,
                              rw (s₆.sent, s₅, s₄, s₃, s₂, s₁) refl,
                            )))))))
