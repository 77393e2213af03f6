-- ===== src/Server/Told.antt =====
-- One round of sendNotifications: every change is told once.
use plasma_trim_cli.Base.{
  ℤ, pos, pos_part, ltb_ℤ, ℕ, ◌≡◌, refl, ap, ap₂, inl, inr, Bool, true, false, not, ◌&&◌, ◌||◌,
  List, [], ◌∷◌, map, if◌then◌else◌, Bool-cases, take, All,
}
use plasma_trim_cli.Machine.{Machine, World, delay}
use plasma_trim_cli.Machine.Laws.{Returned, Returned->>=, Returned_map}
use plasma_trim_cli.Server.State.{Status, is_status, Notify, no_notify, DeviceState}
use plasma_trim_cli.Server.Talk.{IsSpeech, IsSpeech-refl, IsSpeech-trans, send_update-Says}
use mathlib.Core.List.{Mem}
use plasma_trim_cli.Server.Info.{
  is_notified, send_update, to_clients, notify_devices, send_notifications,
}

-- The record of a device behind the round: of one that is connected, all bits are cleared.
abbrev pub told : DeviceState → DeviceState
told d = if is_status d.status Status.disconnect then d else record d { notify = no_notify }

told_if : (b : Bool) → DeviceState → DeviceState
told_if b d = if b then d else record d { notify = no_notify }

told_on :
    (d : DeviceState)
    → (not (is_status d.status Status.disconnect) && is_notified d.notify) ≡ true
    → record d { notify = no_notify } ≡ told d
unfolding told_if
told_on d = go (is_status d.status Status.disconnect)
  where
    go :
        (b : Bool)
        → (not b && is_notified d.notify) ≡ true
        → record d { notify = no_notify } ≡ told_if b d
    go true e = cc
    go false e = refl

nothing_told : (n : Notify) → is_notified n ≡ false → n ≡ no_notify
nothing_told n = go n.name n.brightness n.temp_brightness n.status
  where
    go :
        (a b c d : Bool)
        → (a || (b || (c || d))) ≡ false
        → record { name = a; brightness = b; temp_brightness = c; status = d } ≡ no_notify
    go true b c d e = cc
    go false true c d e = cc
    go false false true d e = cc
    go false false false true e = cc
    go false false false false e = refl

told_off :
    (d : DeviceState)
    → (not (is_status d.status Status.disconnect) && is_notified d.notify) ≡ false
    → d ≡ told d
unfolding told_if
told_off d = go (is_status d.status Status.disconnect)
  where
    go : (b : Bool) → (not b && is_notified d.notify) ≡ false → d ≡ told_if b d
    go true e = refl
    go false e = ap (λ n. record d { notify = n }) (nothing_told d.notify e)

-- Every client, that is every socket above 0, has been sent the serial number of the device.
abbrev pub IsHeard : List ℤ → DeviceState → List (ℕ × List ℕ) → Type 0
IsHeard [] d replies = Unit
IsHeard (socket ∷ sockets) d replies =
    (ltb_ℤ (pos 0) socket ≡ true → Mem (pos_part socket, take 8 d.serial) replies)
    × IsHeard sockets d replies

-- Whether the round has something to tell of a device.
abbrev pub has_news : DeviceState → Bool
has_news d = not (is_status d.status Status.disconnect) && is_notified d.notify

abbrev pub AllHeard : List ℤ → List DeviceState → List (ℕ × List ℕ) → Type 0
AllHeard sockets devices replies = All (λ d. has_news d ≡ true → IsHeard sockets d replies) devices

module _ {m : Machine} where
  IsHeard-later :
      (sockets : List ℤ) (d : DeviceState) {w v : World m}
      → IsSpeech w v
      → IsHeard sockets d w.replies
      → IsHeard sockets d v.replies
  IsHeard-later [] d s h = tt
  IsHeard-later (socket ∷ sockets) d s h = (λ e. s.said _ (h.0 e), IsHeard-later sockets d s h.1)

  to_clients-IsHeard :
      (sockets : List ℤ) (d : DeviceState) (w : World m)
      → Returned
          (to_clients sockets (send_update d) w)
          (λ _ v. IsSpeech w v × IsHeard sockets d v.replies)
  unfolding to_clients
  to_clients-IsHeard [] d w = (IsSpeech-refl w, tt)
  to_clients-IsHeard (socket ∷ sockets) d w = elim (Bool-cases (ltb_ℤ (pos 0) socket)) [
    | inl e ↦ rw e (
        Returned->>= (send_update d (pos_part socket)) _ w _ _
          (send_update-Says d (pos_part socket) w)
          (λ _ v (s, said).
            Returned_map (to_clients sockets (send_update d) v) _ _ (to_clients-IsHeard sockets d v)
              (λ _ x (s', h). (IsSpeech-trans s s', (λ _. s'.said _ said, h)))))
    | inr e ↦ rw e (
        Returned_map (to_clients sockets (send_update d) w) _ _ (to_clients-IsHeard sockets d w)
          (λ _ x (s, h). (s, (λ f. cc, h))))
  ]

  notify_devices-told :
      (sockets : List ℤ) (devices : List DeviceState) (w : World m)
      → Returned (notify_devices sockets devices w) (λ devices' v.
        (devices' ≡ map told devices) × IsSpeech w v × AllHeard sockets devices v.replies)
  unfolding notify_devices
  notify_devices-told sockets [] w = (refl, IsSpeech-refl w, tt)
  notify_devices-told sockets (d ∷ ds) w = elim (Bool-cases (has_news d)) [
    | inl e ↦ rw e (
        Returned->>= (to_clients sockets (send_update d)) _ w
          (λ _ v. IsSpeech w v × IsHeard sockets d v.replies) _ (to_clients-IsHeard sockets d w)
          (λ _ v (s, h).
            Returned->>= (notify_devices sockets ds) _ v _ _ (notify_devices-told sockets ds v)
              (λ ds' v' (e', s', h'). (
                ap₂ ◌∷◌ (told_on d e) e',
                IsSpeech-trans s s',
                (λ _. IsHeard-later sockets d s' h, h'),
              ))))
    | inr e ↦ rw e (
        Returned->>= (notify_devices sockets ds) _ w _ _ (notify_devices-told sockets ds w)
          (λ ds' v (e', s, h). (ap₂ ◌∷◌ (told_off d e) e', s, (λ f. cc, h))))
  ]

  -- A round of sendNotifications comes back, whatever the clients are. Each client has been sent the
  -- serial number of each connected device with a change to tell. Behind the round no device that is
  -- connected has a change left to tell; nothing else of the table has changed, and no device has been
  -- written to.
  pub send_notifications-told :
      (sockets : List ℤ) (devices : List DeviceState) (w : World m)
      → Returned (send_notifications sockets devices w) (λ devices' v.
        (devices' ≡ map told devices) × (v.sent ≡ w.sent) × AllHeard sockets devices v.replies)
  unfolding send_notifications delay
  send_notifications-told sockets devices w =
      Returned->>= (notify_devices sockets devices) _ w _ _ (notify_devices-told sockets devices w)
        (λ devices' v (e, s, h). (e, s.sent, h))
