-- ===== src/Server/Farewell.antt =====
-- manageConnection: a client that gives the security code and leaves.
use plasma_trim_cli.Base.{
  pos, negsuc, ℕ, suc, ◌≡◌, refl, ◌∙◌, inl, inr, Bool, true, false, not, ◌||◌, some, List, [], ◌∷◌,
  ◌++◌, map, arith, ◌==◌, Bool-cases, get_or, All, same_text,
}
use plasma_trim_cli.Machine.{Machine, World, M, ◌>>◌, when, send, delay}
use plasma_trim_cli.Machine.Laws.{Returned, Returned->>=, Returned_map, IsResponsive}
use plasma_trim_cli.Net.{
  Net, Arrival, timed_out, select_failed, read_failed, arrived, receive_within, close_socket,
}
use plasma_trim_cli.Server.State.{Status, DeviceState, is_status, is_socket}
use plasma_trim_cli.Server.Info.{
  status_info, device_info, client_welcome, list_devices, connected_devices,
}
use plasma_trim_cli.Server.Connection.{freed, stops, release_locks, release_locks-freed}
use plasma_trim_cli.Server.Dialogue.{read_commands_step, read_commands_end}
use plasma_trim_cli.Server.Session.{
  Session, filled, clean_code, take_command, ends_command, goes_on, quit, cleared, took_line, Left,
  read_commands, serve, hang_up_client, welcome, check_code, first_arrival, manage_connection,
}

-- What ends a session: nothing for too long, a failing read, the end of the connection, an empty line
-- or '!'.
abbrev pub says_goodbye : Arrival → Bool
says_goodbye timed_out = true
says_goodbye select_failed = false
says_goodbye read_failed = true
says_goodbye (arrived bytes) =
    let c = get_or bytes 0 0 in c == b'!' || (c == 0 || (c == 0x0D || c == 0x0A))

module _ {m : Machine} where
  -- It only talks to clients.
  abbrev Speaks : M m (Unit {0}) → Type 0
  Speaks f = (w : World m) → Returned (f w) (λ _ v. (v.sent ≡ w.sent) × (v.outside ≡ w.outside))

  speak_send : (fd n : ℕ) (text : List ℕ) → Speaks (send fd text n)
  unfolding send
  speak_send fd n text w = (refl, refl)

  speak_then : (f g : M m (Unit {0})) → Speaks f → Speaks g → Speaks (f >> g)
  speak_then f g h k w =
      Returned->>= f (λ _. g) w _ _ (h w)
        (λ _ v (s, o). Returned_map (g v) _ _ (k v) (λ _ x (s', o'). (s' ∙ s, o' ∙ o)))

  speak_when : (b : Bool) (f : M m (Unit {0})) → Speaks f → Speaks (when b f)
  speak_when true f h = h
  speak_when false f h = λ w. (refl, refl)

  status_info-Speaks : (fd : ℕ) (d : DeviceState) → Speaks (status_info fd d)
  unfolding status_info
  status_info-Speaks fd d = speak_then _ _ (speak_send fd _ _) (
      speak_then _ _ (speak_when (not (is_status d.status Status.disconnect)) _ (speak_send fd _ _))
        (speak_send fd _ _))

  device_info-Speaks : (fd : ℕ) (d : DeviceState) → Speaks (device_info fd d)
  unfolding device_info
  device_info-Speaks fd d = speak_when _ _ (
      speak_then _ _ (speak_send fd _ _) (
        speak_then _ _ (speak_send fd _ _) (
          speak_then _ _ (speak_send fd _ _) (
            speak_then _ _ (speak_send fd _ _) (
              speak_then _ _ (speak_send fd _ _) (
                speak_when _ _ (
                  speak_then _ _ (speak_send fd _ _) (
                    speak_then _ _ (speak_send fd _ _) (
                      speak_then _ _ (speak_send fd _ _) (
                        speak_then _ _ (speak_send fd _ _) (
                          speak_then _ _ (speak_send fd _ _) (
                            speak_then _ _ (speak_send fd _ _) (status_info-Speaks fd d)))))))))))))

  list_devices-Speaks :
      (fd : ℕ) (separator : Bool) (ds : List DeviceState) → Speaks (list_devices fd separator ds)
  unfolding list_devices
  list_devices-Speaks fd separator [] w = (refl, refl)
  list_devices-Speaks fd separator (d ∷ ds) w =
      elim (Bool-cases (is_status d.status Status.disconnect)) [
        | inl e ↦ rw e (list_devices-Speaks fd separator ds w)
        | inr e ↦ rw e (
            speak_then _ _ (speak_when separator _ (speak_send fd _ _))
              (speak_then _ _ (device_info-Speaks fd d) (list_devices-Speaks fd true ds)) w)
      ]

  connected_devices-Speaks : (fd : ℕ) (ds : List DeviceState) → Speaks (connected_devices fd ds)
  unfolding connected_devices
  connected_devices-Speaks fd ds =
      speak_then _ _ (speak_send fd _ _)
        (speak_then _ _ (list_devices-Speaks fd false ds) (speak_send fd _ _))

  client_welcome-Speaks : (fd : ℕ) → Speaks (client_welcome fd)
  unfolding client_welcome send
  client_welcome-Speaks fd w = (refl, refl)

quit_stops :
    (buffer : List ℕ) (commands : List (List ℕ))
    → goes_on (quit (cleared 0 (record { buffer = buffer; commands = commands }))) ≡ false
quit_stops buffer [] = refl
quit_stops buffer (c ∷ cs) = refl

-- The line that ends the session.
goodbye_ends :
    (bytes : List ℕ) → says_goodbye (arrived bytes) ≡ true → ends_command (filled bytes) ≡ true
goodbye_ends [] h = refl
goodbye_ends (c ∷ cs) h = ground arith

goodbye_stops :
    (bytes buffer : List ℕ) (commands : List (List ℕ))
    → says_goodbye (arrived bytes) ≡ true
    → goes_on (took_line 0 bytes (record { buffer = buffer; commands = commands })) ≡ false
unfolding take_command
goodbye_stops bytes buffer [] h = refl
goodbye_stops [] buffer (d ∷ ds) h = refl
goodbye_stops (c ∷ cs) buffer (d ∷ ds) h = ground arith

module _ {m : Machine} (net : Net m) where
  -- The loop that reads the lines of a command ends at once, with a session that does not go on.
  goodbye_read :
      (socket room : ℕ) (s : Session) (arrival : Arrival) (w : World m)
      → ends_command s.buffer ≡ false
      → (net.receive socket 300 w.outside).0 ≡ arrival
      → says_goodbye arrival ≡ true
      → Returned
          (read_commands net socket (suc (suc room)) 0 s w)
          (λ r v. (t : Session) × (r ≡ some t) × (goes_on t ≡ false) × (v.sent ≡ w.sent))
  unfolding read_commands receive_within
  goodbye_read socket room s timed_out w going e h =
      rw (going, e, read_commands) (_, refl, quit_stops s.buffer s.commands, refl)
  goodbye_read socket room s select_failed w going e h = absurd cc
  goodbye_read socket room s read_failed w going e h =
      rw (going, e, read_commands) (_, refl, quit_stops s.buffer s.commands, refl)
  goodbye_read socket room s (arrived bytes) w going e h =
      rw
        (
          read_commands_step net socket (suc room) 0 s w bytes going e,
          read_commands_end net socket (suc room) 1 (took_line 0 bytes s) _ (goodbye_ends bytes h),
        )
        (_, refl, goodbye_stops bytes s.buffer s.commands h, refl)

-- How a client is let go.
abbrev pub Released : {m : Machine} → ℕ → List DeviceState → ℕ → World m → Left → World m → Type 0
Released socket devices number_clients w l v =
    (l.devices ≡ map (freed socket) devices)
    × (l.number_clients ≡ number_clients)
    × (l.slot ≡ negsuc 0)
    × All (λ d. is_socket d.lock socket ≡ false) l.devices
    × (v.sent ≡ stops socket devices w.sent)

module _ {m : Machine} (responsive : IsResponsive m) (net : Net m) (shade : ℕ → ℕ → ℕ → ℕ → ℕ)
    (fuel : ℕ) (code : List ℕ) (socket : ℕ) (devices : List DeviceState) (number_clients : ℕ) where
  hang_up_client-Released :
      (w : World m)
      → Returned
          (hang_up_client net socket devices number_clients w)
          (Released socket devices number_clients w)
  unfolding hang_up_client close_socket
  hang_up_client-Released w =
      Returned->>= (release_locks socket devices) _ w _ _
        (release_locks-freed responsive socket devices w)
        (λ devices' v (e, all, s). (e, refl, refl, all, s))

  serve_goodbye :
      (s : Session) (w : World m)
      → ends_command s.buffer ≡ false
      → says_goodbye (net.receive socket 300 w.outside).0 ≡ true
      → Returned
          (serve net shade (suc fuel) socket s devices w)
          (λ r v. (r ≡ (true, devices)) × (v.sent ≡ w.sent))
  unfolding serve send delay
  serve_goodbye s w going bye =
      Returned->>= (read_commands net socket 1024 0 s) _ _ _ _
        (goodbye_read net socket 1022 s _ _ going refl bye)
        (λ r v (t, er, over, sent). rw (er, over) (refl, sent))

  welcome-Released :
      (buffer : List ℕ) (w : World m)
      → ends_command (clean_code buffer ++ (0 ∷ [])) ≡ false
      → says_goodbye (net.receive socket 300 w.outside).0 ≡ true
      → Returned
          (welcome net shade (suc fuel) socket buffer devices number_clients w)
          (Released socket devices number_clients w)
  unfolding welcome delay
  welcome-Released buffer w going bye =
      Returned->>= (client_welcome socket) _ w _ _ (client_welcome-Speaks socket w) (λ _ v (s, o).
        Returned->>= (connected_devices socket devices) _ _ _ _
          (connected_devices-Speaks socket devices _)
          (λ _ x (s', o').
            Returned->>= (serve net shade (suc fuel) socket _ devices) _ x _ _
              (serve_goodbye _ x going (rw (o', o) bye))
              (λ r y (er, sent). rw er (
                Returned_map (hang_up_client net socket devices number_clients y) _ _
                  (hang_up_client-Released y)
                  (λ l z (a, b, c, d, e). (a, b, c, d, rw (← s, ← s', ← sent) e))))))

  -- A client that gives the security code and then leaves: the code is not empty and does not begin
  -- with '!' or '.', and the next read brings an empty line, '!', the end of the connection, or nothing
  -- for 5 minutes. If the devices answer, its thread ends: what was locked by its socket is stopped, in
  -- the order of the table, and freed, the devices of others stay as they are, no device is locked by it,
  -- the number of clients is as before, and its place is given back.
  pub manage_connection-Released :
      (bytes : List ℕ) (w : World m)
      → (net.receive socket 5 w.outside).0 ≡ arrived bytes
      → same_text (clean_code (filled bytes)) code ≡ true
      → ends_command (clean_code (filled bytes) ++ (0 ∷ [])) ≡ false
      → says_goodbye (net.receive socket 300 (net.receive socket 5 w.outside).1).0 ≡ true
      → Returned
          (manage_connection net shade (suc fuel) code (pos socket) devices number_clients w)
          (Released socket devices number_clients w)
  unfolding manage_connection receive_within first_arrival check_code
  manage_connection-Released bytes w e right going bye =
      rw (e, right) (welcome-Released (filled bytes) _ going bye)
