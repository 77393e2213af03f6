-- ===== src/Server/Denial.antt =====
-- manageConnection: a client that does not give the security code.
use plasma_trim_cli.Base.{
  pos, ℕ, ◌≡◌, refl, ap, Bool, false, List, [], ◌∷◌, replicate, All, same_text,
}
use plasma_trim_cli.Machine.{Machine, World, send}
use plasma_trim_cli.Machine.Laws.{Returned, Returned->>=}
use plasma_trim_cli.Net.{
  Net, Arrival, timed_out, select_failed, read_failed, arrived, receive_within, close_socket,
}
use plasma_trim_cli.Server.State.{DeviceState, is_socket}
use plasma_trim_cli.Server.Connection.{release_locks}
use plasma_trim_cli.Server.Session.{
  filled, clean_code, Left, hang_up_client, check_code, manage_connection, first_arrival,
}

-- Whether what arrives first is the security code.
abbrev pub gives_code : List ℕ → Arrival → Bool
gives_code code timed_out = false
gives_code code select_failed = false
gives_code code read_failed = same_text [] code
gives_code code (arrived bytes) = same_text (clean_code (filled bytes)) code

-- Nothing is locked by the socket.
abbrev pub HoldsNothing : ℕ → List DeviceState → Type 0
HoldsNothing socket devices = All (λ d. is_socket d.lock socket ≡ false) devices

module _ {m : Machine} where
  release_locks-same :
      (socket : ℕ) (devices : List DeviceState) (w : World m)
      → HoldsNothing socket devices
      → Returned
          (release_locks socket devices w)
          (λ devices' v. (devices' ≡ devices) × (v.sent ≡ w.sent))
  unfolding release_locks
  release_locks-same socket [] w h = (refl, refl)
  release_locks-same socket (d ∷ ds) w h = rw h.0 (
      Returned->>= (release_locks socket ds) _ w _ _ (release_locks-same socket ds w h.1)
        (λ ds' v (e, s). (ap (λ t. d ∷ t) e, s)))

-- The table and the number of clients are as before, and no device has been written to.
abbrev pub Untouched : {m : Machine} → List DeviceState → ℕ → World m → Left → World m → Type 0
Untouched devices number_clients w l v =
    (l.devices ≡ devices) × (l.number_clients ≡ number_clients) × (v.sent ≡ w.sent)

module _ {m : Machine} (net : Net m) (shade : ℕ → ℕ → ℕ → ℕ → ℕ) (fuel : ℕ) (code : List ℕ)
    (socket : ℕ) (devices : List DeviceState) (number_clients : ℕ)
    (free : HoldsNothing socket devices) where
  hang_up_client-Untouched :
      (w : World m)
      → Returned
          (hang_up_client net socket devices number_clients w)
          (Untouched devices number_clients w)
  unfolding hang_up_client close_socket
  hang_up_client-Untouched w =
      Returned->>= (release_locks socket devices) _ w _ _ (release_locks-same socket devices w free)
        (λ devices' v (e, s). (e, refl, s))

  check_code-Untouched :
      (buffer : List ℕ) (w : World m)
      → same_text (clean_code buffer) code ≡ false
      → Returned
          (check_code net shade fuel code socket buffer devices number_clients w)
          (Untouched devices number_clients w)
  unfolding check_code send
  check_code-Untouched buffer w wrong = rw wrong (hang_up_client-Untouched _)

  first_arrival-Untouched :
      (arrival : Arrival) (w : World m)
      → gives_code code arrival ≡ false
      → Returned
          (first_arrival net shade fuel code socket devices number_clients arrival w)
          (Untouched devices number_clients w)
  unfolding first_arrival clean_code
  first_arrival-Untouched timed_out w wrong = hang_up_client-Untouched w
  first_arrival-Untouched select_failed w wrong = (refl, refl, refl)
  first_arrival-Untouched read_failed w wrong = check_code-Untouched (replicate 964 0) w wrong
  first_arrival-Untouched (arrived bytes) w wrong = check_code-Untouched (filled bytes) w wrong

  -- A client that does not give the security code within 5 seconds touches no device, as long as no
  -- device is locked by its socket: its thread ends, whatever else it has sent; the table of devices
  -- and the number of clients are as before, and no device has been written to.
  pub manage_connection-Untouched :
      (w : World m)
      → gives_code code (net.receive socket 5 w.outside).0 ≡ false
      → Returned
          (manage_connection net shade fuel code (pos socket) devices number_clients w)
          (Untouched devices number_clients w)
  unfolding manage_connection receive_within
  manage_connection-Untouched w wrong =
      first_arrival-Untouched (net.receive socket 5 w.outside).0 _ wrong
