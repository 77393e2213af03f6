-- ===== src/Server/Connection.antt =====
-- The end of manageConnection: a client that leaves gives up its locks.
use plasma_trim_cli.Base.{
  negsuc, ℕ, ◌≡◌, refl, ap, inl, inr, false, List, [], ◌∷◌, map, if◌then◌else◌, Bool-cases,
  replicate, All,
}
use plasma_trim_cli.Machine.{Machine, World, M, ◌>>=◌, ◌>>◌, pure}
use plasma_trim_cli.Machine.Laws.{Returned, Returned->>=, IsResponsive, IsSent}
use plasma_trim_cli.Device.{command, stop}
use plasma_trim_cli.Device.Laws.{send_command-IsSent}
use plasma_trim_cli.Server.State.{Status, DeviceState, is_socket, notify_status}

abbrev pub freed : ℕ → DeviceState → DeviceState
freed socket d =
    if is_socket d.lock socket
    then notify_status (record d { status = Status.idle; lock = negsuc 0 })
    else d

module _ {m : Machine} where
  -- `for (i = 0; i < MAX_DEVICES; i++) if (lock[i] == socket_id[…]) …`
  unfoldable pub release_locks : ℕ → List DeviceState → M m (List DeviceState)
  release_locks socket [] = pure []
  release_locks socket (d ∷ ds) =
      if is_socket d.lock socket
      then (do stop d.handle; ds' ← release_locks socket ds; pure (freed socket d ∷ ds'))
      else (release_locks socket ds >>= λ ds'. pure (d ∷ ds'))

-- The stops that are sent for the devices of a client, the last one first.
abbrev pub stops : ℕ → List DeviceState → List (ℕ × List ℕ) → List (ℕ × List ℕ)
stops socket [] before = before
stops socket (d ∷ ds) before =
    if is_socket d.lock socket
    then stops socket ds ((d.handle, 0x03 ∷ replicate 31 0) ∷ before)
    else stops socket ds before

module _ {m : Machine} (responsive : IsResponsive m) where
  -- When a client leaves, all that it locked is stopped, in the order of the table, and freed; no device
  -- is locked by it afterwards, and the devices of others stay as they are.
  pub release_locks-freed :
      (socket : ℕ) (devices : List DeviceState) (w : World m)
      → Returned (release_locks socket devices w) (λ devices' v.
        (devices' ≡ map (freed socket) devices)
        × All (λ d. is_socket d.lock socket ≡ false) devices'
        × (v.sent ≡ stops socket devices w.sent))
  unfolding release_locks stop
  release_locks-freed socket [] w = (refl, tt, refl)
  release_locks-freed socket (d ∷ ds) w = elim (Bool-cases (is_socket d.lock socket)) [
    | inl own ↦ rw own (
        Returned->>= (stop d.handle) _ w (λ _ v. IsSent d.handle (command 0x03) w v) _
          (send_command-IsSent responsive d.handle (command 0x03) w)
          (λ _ v s.
            Returned->>= (release_locks socket ds) _ v _ _ (release_locks-freed socket ds v)
              (λ ds' v' (e, all, sent). (
                ap (λ t. notify_status (record d { status = Status.idle; lock = negsuc 0 }) ∷ t) e,
                (refl, all),
                rw (← s.sent) sent,
              ))))
    | inr other ↦ rw other (
        Returned->>= (release_locks socket ds) _ w _ _ (release_locks-freed socket ds w)
          (λ ds' v (e, all, sent). (ap (λ t. d ∷ t) e, (other, all), sent)))
  ]
