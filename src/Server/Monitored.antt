-- ===== src/Server/Monitored.antt =====
-- A round of monitorDevices keeps the table of devices sound.
use plasma_trim_cli.Base.{
  ℤ, ℕ, suc, ◌≡◌, refl, ◌≢◌, inl, inr, true, false, Option, none, some, List, [], ◌∷◌, arith, ◌==◌,
  Bool-cases, length, take, All,
}
use plasma_trim_cli.Machine.{Machine, World, M, ◌>>=◌, pure, printf, delay}
use plasma_trim_cli.Machine.Laws.{Returned, Returned->>=, Returned_map, IsResponsive}
use plasma_trim_cli.Machine.Partial.{Unless}
use plasma_trim_cli.Server.State.{DeviceState}
use plasma_trim_cli.Server.Command.{is_open}
use plasma_trim_cli.Server.Monitor.{
  Bus, set_up, open_path, open_first, remove_devices, add_devices, monitor_devices,
}
use plasma_trim_cli.Server.Removed.{KeptOrGone, AllKeptOrGone, remove_devices-AllKeptOrGone}
use plasma_trim_cli.Server.Added.{IsNew, set_up-IsNew}
use plasma_trim_cli.Server.Sound.{IsSound}
use plasma_trim_cli.Server.Paths.{
  IsPath, NamesPaths, fill_first, take_paths, all_fit_lem, remove_devices-IsPath,
}

kept_or_gone-IsSound :
    (paths : List (List ℕ)) (ds ds' : List DeviceState)
    → AllKeptOrGone paths ds ds'
    → All IsSound ds
    → All IsSound ds'
kept_or_gone-IsSound paths [] [] h sound = tt
kept_or_gone-IsSound paths [] (d' ∷ ds') h sound = absurd h
kept_or_gone-IsSound paths (d ∷ ds) [] h sound = absurd h
kept_or_gone-IsSound paths (d ∷ ds) (d' ∷ ds') h sound =
    (go h.0, kept_or_gone-IsSound paths ds ds' h.1 sound.1)
  where
    go : KeptOrGone paths d d' → IsSound d'
    go (inl (e, _)) = rw e sound.0
    go (inr (e, _)) = rw e (record { opened = λ f. cc; shut = λ f. (refl, refl) })

-- A device that was opened has a path that is not empty, and what is left are paths.
IsChoice : Option (ℕ × List ℕ) × List (List ℕ) → Type 0
IsChoice (none, left) = All IsPath left
IsChoice (some (handle, []), left) = ⊥
IsChoice (some (handle, c ∷ cs), left) = (c ≢ 0) × All IsPath left

IsChoice-cons :
    (p : List ℕ) (r : Option (ℕ × List ℕ) × List (List ℕ))
    → IsPath p
    → IsChoice r
    → IsChoice (r.0, p ∷ r.1)
unfolding IsChoice
IsChoice-cons p (none, left) h k = (h, k)
IsChoice-cons p (some (handle, []), left) h k = absurd k
IsChoice-cons p (some (handle, c ∷ cs), left) h k = (k.0, (h, k.1))

-- What is known of the result.
abbrev Gives : {A : Type 0} {m : Machine} → (A → Type 0) → A → World m → Type 0
Gives P a w = P a

module _ {m : Machine} where
  Returned_with :
      {A : Type 0} (P : A → Type 0) (Q : A → World m → Type 0) (r : Option (A × World m))
      → Unless P r
      → Returned r Q
      → Returned r (λ a w. P a × Q a w)
  Returned_with P Q none h k = k
  Returned_with P Q (some (a, w)) h k = (h, k)

-- A device that was opened on a path.
new-IsSound :
    (handle c : ℕ) (cs : List ℕ) (d : DeviceState) → c ≢ 0 → IsNew handle (c ∷ cs) d → IsSound d
new-IsSound handle c cs d h new =
    let opened : is_open d ≡ true = rw new.opened (fill_first c cs h) in
    record { opened = λ _. rw new.plays refl; shut = λ shut. cc }

module _ {m : Machine} (responsive : IsResponsive m) (bus : Bus m) where
  open_first-IsChoice :
      (ps : List (List ℕ)) (w : World m)
      → All IsPath ps
      → Returned (open_first bus ps w) (Gives IsChoice)
  unfolding open_first open_path
  open_first-IsChoice [] w h = unfold IsChoice in tt
  open_first-IsChoice ([] ∷ ps) w h =
      Returned->>= (open_first bus ps) _ w (Gives IsChoice) (Gives IsChoice)
        (open_first-IsChoice ps w h.1) (λ r v k. IsChoice-cons [] r tt k)
  open_first-IsChoice ((c ∷ cs) ∷ ps) w h =
      let some_path : (suc (length cs) == 0) ≡ false = ground arith in
      rw some_path (
        Returned->>= (open_path bus (c ∷ cs)) _ w (λ _ _. Unit {0}) (Gives IsChoice) tt
          (λ opened v _. go opened v (
            Returned->>= (open_first bus ps) _ v (Gives IsChoice) (Gives IsChoice)
              (open_first-IsChoice ps v h.1) (λ r x k. IsChoice-cons (c ∷ cs) r h.0 k))))
    where
      go :
          (opened : Option ℕ) (v : World m)
          → Returned ((open_first bus ps >>= λ r. pure (r.0, (c ∷ cs) ∷ r.1)) v) (Gives IsChoice)
          → Returned
              ((elim opened as (λ _. M m (Option (ℕ × List ℕ) × List (List ℕ))) [
                | some handle ↦ pure (some (handle, c ∷ cs), [] ∷ ps)
                | none ↦ (open_first bus ps >>= λ r. pure (r.0, (c ∷ cs) ∷ r.1))
              ])
                v)
              (Gives IsChoice)
      go (some handle) v rest = unfold IsChoice in (h.0, (tt, h.1))
      go none v rest = rest

  add_devices-IsSound :
      (sockets : List ℤ) (ds : List DeviceState) (current : List (List ℕ)) (w : World m)
      → All IsPath current
      → All IsSound ds
      → Returned (add_devices bus sockets ds current w) (Gives (All IsSound))
  unfolding add_devices
  add_devices-IsSound sockets [] current w paths sound = tt
  add_devices-IsSound sockets (d ∷ ds) current w paths sound = elim (Bool-cases (is_open d)) [
    | inl e ↦ rw e (
        Returned->>= (add_devices bus sockets ds current) _ w (Gives (All IsSound))
          (Gives (All IsSound)) (add_devices-IsSound sockets ds current w paths sound.1)
          (λ ds' v rest. (sound.0, rest)))
    | inr e ↦ rw e (
        Returned->>= (open_first bus current) _ w (Gives IsChoice) (Gives (All IsSound))
          (open_first-IsChoice current w paths)
          (λ r v k. go r v k (λ left x all. add_devices-IsSound sockets ds left x all sound.1)))
  ]
    where
      go :
          (r : Option (ℕ × List ℕ) × List (List ℕ)) (v : World m)
          → IsChoice r
          → ((left : List (List ℕ)) (x : World m)
              → All IsPath left
              → Returned (add_devices bus sockets ds left x) (Gives (All IsSound)))
          → Returned
              ((elim r.0 as (λ _. M m (List DeviceState)) [
                | none ↦ (add_devices bus sockets ds r.1 >>= λ ds'. pure (d ∷ ds'))
                | some (handle, path) ↦ do
                  d' ← set_up sockets handle path
                  ds' ← add_devices bus sockets ds r.1
                  pure (d' ∷ ds')
              ])
                v)
              (Gives (All IsSound))
      go (none, left) v k rest =
          Returned->>= (add_devices bus sockets ds left) _ v (Gives (All IsSound))
            (Gives (All IsSound)) (rest left v (unfold IsChoice in k)) (λ ds' x all. (sound.0, all))
      go (some (handle, []), left) v k rest = absurd (unfold IsChoice in k)
      go (some (handle, c ∷ cs), left) v k rest =
          Returned->>= (set_up sockets handle (c ∷ cs)) _ v (Gives IsSound) (Gives (All IsSound))
            (Returned_map (set_up sockets handle (c ∷ cs) v) _ _
              (set_up-IsNew responsive sockets handle (c ∷ cs) v)
              (λ d x (new, answered, told, sent).
                new-IsSound handle c cs d (unfold IsChoice in k.0) new))
            (λ d' x up.
              Returned->>= (add_devices bus sockets ds left) _ x (Gives (All IsSound))
                (Gives (All IsSound)) (rest left x (unfold IsChoice in k.1))
                (λ ds' y all. (up, all)))

  -- A round of monitorDevices keeps the table of devices sound: if every place that holds an open
  -- device is connected and every place without one is disconnected and locked by nobody, then the
  -- round comes back, and so it is for each place of the new table. The devices must answer, no other
  -- thread may change the table during the round, and the paths that hid_enumerate names must be C
  -- strings below 32 characters, so none of them begins with a terminator.
  pub monitor_devices-IsSound :
      (sockets : List ℤ) (number_clients : ℕ) (ds : List DeviceState) (w : World m)
      → NamesPaths bus
      → All IsSound ds
      → Returned (monitor_devices bus sockets number_clients ds w) (λ ds' _. All IsSound ds')
  unfolding monitor_devices printf delay
  monitor_devices-IsSound sockets number_clients ds w named sound =
      let paths = take 32 (bus.hid_enumerate w.outside) in
      rw (monitor_devices, all_fit_lem 32 _ (named w.outside).1)
        (Returned->>= (remove_devices bus sockets ds paths) _ w
          (λ r v. All IsPath r.1 × (AllKeptOrGone paths ds r.0 × (v.sent ≡ w.sent)))
          (Gives (All IsSound))
          (Returned_with (λ r. All IsPath r.1) _ (remove_devices bus sockets ds paths w)
            (remove_devices-IsPath bus sockets ds paths w (take_paths 32 _ (named w.outside).0))
            (remove_devices-AllKeptOrGone bus sockets ds paths w))
          (λ r v (left, (kept, _)).
            Returned->>= (add_devices bus sockets r.0 r.1) _ v (Gives (All IsSound))
              (Gives (All IsSound))
              (add_devices-IsSound sockets r.0 r.1 v left
                (kept_or_gone-IsSound paths ds r.0 kept sound))
              (λ ds' x h. h)))
