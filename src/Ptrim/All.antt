-- ===== src/Ptrim/All.antt =====
-- `ptrim all start` and `ptrim all stop`, from the first device to the exit code.
use plasma_trim_cli.Base.{
  ℕ, zero, suc, ◌≡◌, refl, sym, ap, ◌∙◌, false, Option, none, some, List, [], ◌∷◌, ◌++◌, arith,
  length, take, codes, c_string, same_text,
}
use plasma_trim_cli.Machine.{Machine, World}
use plasma_trim_cli.Machine.Laws.{Returned, Returned->>=, Returned_map, IsResponsive, IsSent}
use plasma_trim_cli.Device.{command, start_comm, get_serial, start, stop}
use plasma_trim_cli.Device.Info.{get_serial-IsSent}
use plasma_trim_cli.Device.Laws.{setters-IsSent}
use plasma_trim_cli.Files.{Disk}
use plasma_trim_cli.Server.Monitor.{Bus, open_path, close_device}
use plasma_trim_cli.Ptrim.Open.{enumerate, open_devices}
use plasma_trim_cli.Ptrim.Command.{Task, word_command, ptrim_command}
use plasma_trim_cli.Ptrim.Main.{
  devices, open_selected, run_devices, run_opened, is_shared_stdin, ptrim_main,
}

-- The handles of the devices that can be opened, if the outside has no say in it.
abbrev pub openable : (List ℕ → Option ℕ) → List (List ℕ) → List ℕ
openable opens [] = []
openable opens (path ∷ paths) = elim (opens path) [
  | none ↦ openable opens paths
  | some handle ↦ handle ∷ openable opens paths
]

openable-none :
    (opens : List ℕ → Option ℕ) (path : List ℕ) (paths : List (List ℕ))
    → opens path ≡ none
    → openable opens (path ∷ paths) ≡ openable opens paths
openable-none opens path paths e = rw (e, openable) refl

openable-some :
    (opens : List ℕ → Option ℕ) (path : List ℕ) (paths : List (List ℕ)) (handle : ℕ)
    → opens path ≡ some handle
    → openable opens (path ∷ paths) ≡ handle ∷ openable opens paths
openable-some opens path paths handle e = rw (e, openable) refl

-- A report to each device in turn, the last one first.
abbrev pub to_each : List ℕ → List ℕ → List (ℕ × List ℕ) → List (ℕ × List ℕ)
to_each cmd [] before = before
to_each cmd (handle ∷ handles) before = to_each cmd handles ((handle, cmd) ∷ before)

-- The arguments of a call.
abbrev pub call_all : List ℕ → List ℕ → List (List ℕ)
call_all name word = name ∷ (codes "all" ++ (0 ∷ [])) ∷ (word ++ (0 ∷ [])) ∷ []

-- hid_open_path gives the same handle for a path, or none, at any time.
abbrev pub Opens : {m : Machine} → Bus m → (List ℕ → Option ℕ) → Type 0
Opens {m} bus opens = (path : List ℕ) (o : m.Outside) → (bus.hid_open_path path o).0 ≡ opens path

module _ {m : Machine} (responsive : IsResponsive m) (bus : Bus m) (opens : List ℕ → Option ℕ)
    (opened : Opens bus opens) where
  start_comm-IsSent :
      (handle : ℕ) (w : World m)
      → Returned (start_comm handle w) (λ _ v. IsSent handle (command 0x0A) w v)
  unfolding start_comm
  start_comm-IsSent handle w =
      Returned->>= (get_serial handle) _ w _ _ (get_serial-IsSent responsive handle w) (λ _ v s. s)

  -- The devices that are opened, of which each has been asked for its serial number.
  abbrev OpenedFrom : ℕ → List (List ℕ) → World m → List ℕ → World m → Type 0
  OpenedFrom room paths w handles v =
      (handles ≡ take room (openable opens paths))
      × (v.sent ≡ to_each (command 0x0A) handles w.sent)

  -- The round at one path, for what opening it comes to.
  open_round :
      (room : ℕ) (path : List ℕ) (paths : List (List ℕ)) (w : World m) (r : Option ℕ)
      → opens path ≡ r
      → ((v : World m)
          → Returned (open_devices bus false (suc room) paths v) (OpenedFrom (suc room) paths v))
      → ((v : World m) → Returned (open_devices bus false room paths v) (OpenedFrom room paths v))
      → Returned
          (open_devices bus false (suc room) (path ∷ paths) w)
          (OpenedFrom (suc room) (path ∷ paths) w)
  unfolding open_devices open_path
  open_round room path paths w none e same less =
      rw (opened path w.outside, e, open_devices)
        (Returned_map (open_devices bus false (suc room) paths _) _ _ (same _) (λ handles v (eh, s).
          (eh ∙ ap (take (suc room)) (sym (openable-none opens path paths e)), s)))
  open_round room path paths w (some handle) e same less =
      rw (opened path w.outside, e, open_devices)
        (Returned->>= (start_comm handle) _ _ _ _ (start_comm-IsSent handle _) (λ _ x asked.
          Returned->>= (open_devices bus false room paths) _ x _ _ (less x) (λ handles v (eh, s). (
            ap (λ t. handle ∷ t) eh
                ∙ ap (take (suc room)) (sym (openable-some opens path paths handle e)),
            s ∙ ap (to_each (command 0x0A) handles) asked.sent,
          ))))

  open_devices-openable :
      (room : ℕ) (paths : List (List ℕ)) (w : World m)
      → Returned (open_devices bus false room paths w) (OpenedFrom room paths w)
  unfolding open_devices
  open_devices-openable zero paths w = (refl, refl)
  open_devices-openable (suc room) [] w = (refl, refl)
  open_devices-openable (suc room) (path ∷ paths) w =
      open_round room path paths w (opens path) refl (open_devices-openable (suc room) paths)
        (open_devices-openable room paths)

module _ {m : Machine} (responsive : IsResponsive m) (bus : Bus m) (disk : Disk m)
    (shade : ℕ → ℕ → ℕ → ℕ → ℕ) (columns rounds : ℕ) where
  -- A command that sends one report to its device.
  abbrev OneReport : List ℕ → List (List ℕ) → Type 0
  OneReport cmd argv =
      (task : Task) (w : World m)
      → Returned (ptrim_command bus disk shade columns rounds task argv w)
          (λ argv' v. (argv' ≡ argv) × (v.sent ≡ (task.handle, cmd) ∷ w.sent))

  start-OneReport : (name : List ℕ) → OneReport (command 0x02) (call_all name (codes "start"))
  unfolding ptrim_command word_command close_device same_text c_string
  start-OneReport name task w =
      Returned->>= (word_command bus disk shade columns rounds task (call_all name (codes "start")))
        _ w
        (λ argv' v.
          (argv' ≡ call_all name (codes "start")) × (v.sent ≡ (task.handle, command 0x02) ∷ w.sent))
        _
        (Returned->>= (start task.handle) _ w _ _
          ((setters-IsSent responsive task.handle [] 0 0 w).0) (λ _ v s. (refl, s.sent)))
        (λ argv' v q. q)

  stop-OneReport : (name : List ℕ) → OneReport (command 0x03) (call_all name (codes "stop"))
  unfolding ptrim_command word_command close_device same_text c_string
  stop-OneReport name task w =
      Returned->>= (word_command bus disk shade columns rounds task (call_all name (codes "stop")))
        _ w
        (λ argv' v.
          (argv' ≡ call_all name (codes "stop")) × (v.sent ≡ (task.handle, command 0x03) ∷ w.sent))
        _
        (Returned->>= (stop task.handle) _ w _ _
          ((setters-IsSent responsive task.handle [] 0 0 w).1) (λ _ v s. (refl, s.sent)))
        (λ argv' v q. q)

  run_devices-to_each :
      (cmd : List ℕ) (argv : List (List ℕ)) (total_devices id : ℕ) (handles : List ℕ) (w : World m)
      → OneReport cmd argv
      → Returned
          (run_devices bus disk shade columns rounds total_devices id handles argv w)
          (λ _ v. v.sent ≡ to_each cmd handles w.sent)
  unfolding run_devices
  run_devices-to_each cmd argv total_devices id [] w one = refl
  run_devices-to_each cmd argv total_devices id (handle ∷ handles) w one =
      let task : Task = record { handle = handle; id = id; total_devices = total_devices } in
      Returned->>= (ptrim_command bus disk shade columns rounds task argv) _ w _ _ (one task w)
        (λ argv' v (e, s). rw e (
          Returned_map
            (run_devices bus disk shade columns rounds total_devices (suc id) handles argv v) _ _
            (run_devices-to_each cmd argv total_devices (suc id) handles v one)
            (λ _ x s'. s' ∙ ap (to_each cmd handles) s)))

  run_opened-to_each :
      (cmd : List ℕ) (argv : List (List ℕ)) (handles : List ℕ) (w : World m)
      → is_shared_stdin argv handles ≡ false
      → OneReport cmd argv
      → Returned
          (run_opened bus disk shade columns rounds argv (devices handles) w)
          (λ code v. (code ≡ 0) × (v.sent ≡ to_each cmd handles w.sent))
  unfolding run_opened
  run_opened-to_each cmd argv handles w files one =
      rw (files, run_opened)
        (Returned->>= (run_devices bus disk shade columns rounds (length handles) 0 handles argv) _
          w _ _ (run_devices-to_each cmd argv (length handles) 0 handles w one)
          (λ _ v s. (refl, s)))

module _ {m : Machine} (responsive : IsResponsive m) (bus : Bus m) (opens : List ℕ → Option ℕ)
    (opened : Opens bus opens) (disk : Disk m) (shade : ℕ → ℕ → ℕ → ℕ → ℕ) (columns rounds : ℕ)
    (stale_handle : ℕ → ℕ) (name : List ℕ) where
  -- All devices that can be opened, 32 at most, have been asked and have got the command.
  abbrev pub Commanded : List ℕ → World m → ℕ → World m → Type 0
  Commanded cmd w code v =
      let handles = take 32 (openable opens (bus.hid_enumerate w.outside)) in
      (code ≡ 0) × (v.sent ≡ to_each cmd handles (to_each (command 0x0A) handles w.sent))

  all_selected :
      (word : List ℕ) (w : World m)
      → Returned (open_selected bus disk shade columns stale_handle (call_all name word) w) (λ r v.
        (handles : List ℕ) × (r ≡ devices handles)
        × OpenedFrom responsive bus opens opened 32 (bus.hid_enumerate w.outside) w handles v)
  unfolding open_selected enumerate same_text c_string
  all_selected word w =
      Returned->>= (open_devices bus false 32 (bus.hid_enumerate w.outside)) _ w _ _
        (open_devices-openable responsive bus opens opened 32 (bus.hid_enumerate w.outside) w)
        (λ handles v q. (handles, refl, q))

  main_of :
      (word cmd : List ℕ) (w : World m)
      → ((handles : List ℕ) → is_shared_stdin (call_all name word) handles ≡ false)
      → OneReport responsive bus disk shade columns rounds cmd (call_all name word)
      → Returned
          (ptrim_main bus disk shade columns rounds stale_handle (call_all name word) w)
          (Commanded cmd w)
  unfolding ptrim_main
  main_of word cmd w files one =
      Returned->>= (open_selected bus disk shade columns stale_handle (call_all name word)) _ w _ _
        (all_selected word w)
        (λ r v (handles, er, q). rw er (
          Returned_map
            (run_opened bus disk shade columns rounds (call_all name word) (devices handles) v) _ _
            (run_opened-to_each responsive bus disk shade columns rounds cmd (call_all name word)
              handles v (files handles) one)
            (λ code x (ec, s'). (ec, rw (← q.0) (s' ∙ ap (to_each cmd handles) q.1)))))

  start_files : (handles : List ℕ) → is_shared_stdin (call_all name (codes "start")) handles ≡ false
  unfolding same_text c_string
  start_files handles = ground arith

  stop_files : (handles : List ℕ) → is_shared_stdin (call_all name (codes "stop")) handles ≡ false
  unfolding same_text c_string
  stop_files handles = ground arith

  -- `ptrim all start` and `ptrim all stop` end with exit code 0 if the devices answer, and if whether a
  -- device can be opened does not depend on the moment: the devices that hid_enumerate lists and that
  -- can be opened, the first 32 of them, have each been asked for their serial number, in this order,
  -- and then each has been sent the one report of the command, and nothing else has been sent. The
  -- threads of the devices run one after the other.
  pub ptrim_main-Commanded :
      (w : World m)
      → Returned
          (ptrim_main bus disk shade columns rounds stale_handle (call_all name (codes "start")) w)
          (Commanded (command 0x02) w)
        × Returned
            (ptrim_main bus disk shade columns rounds stale_handle (call_all name (codes "stop")) w)
            (Commanded (command 0x03) w)
  ptrim_main-Commanded w = (
    main_of (codes "start") (command 0x02) w start_files
        (start-OneReport responsive bus disk shade columns rounds name),
    main_of (codes "stop") (command 0x03) w stop_files
        (stop-OneReport responsive bus disk shade columns rounds name),
  )
