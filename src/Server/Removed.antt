-- ===== src/Server/Removed.antt =====
-- The devices that a round of monitorDevices removes, and those that it keeps.
use plasma_trim_cli.Base.{
  ℤ, ℕ, ◌≡◌, refl, sym, ◌∙◌, ◌⊎◌, inl, inr, Bool, true, false, not, ◌||◌, List, [], ◌∷◌, arith,
  ◌==◌, if◌then◌else◌, Bool-cases, get_or, c_string, same_text,
}
use plasma_trim_cli.Machine.{Machine, World, ◌>>=◌, ◌>>◌, pure}
use plasma_trim_cli.Machine.Laws.{Returned, Returned->>=}
use plasma_trim_cli.Server.State.{DeviceState}
use plasma_trim_cli.Server.Command.{is_open}
use plasma_trim_cli.Server.Info.{to_clients}
use plasma_trim_cli.Server.Talk.{IsSpeech, Talks, talk_send, talk_then, to_clients-Talks}
use plasma_trim_cli.Server.Monitor.{
  Bus, claim_path, gone, close_device, tell_removed, remove_devices,
}

-- Whether a path is among those that hid_enumerate names.
abbrev pub is_listed : List ℕ → List (List ℕ) → Bool
is_listed path [] = false
is_listed path (p ∷ ps) = same_text path p || is_listed path ps

-- A device stays as it is, and if it is open, its path is listed; or it was open and is gone.
abbrev pub KeptOrGone : List (List ℕ) → DeviceState → DeviceState → Type 0
KeptOrGone paths d d' =
    ((d' ≡ d) × (is_open d ≡ true → is_listed (c_string d.open_device) paths ≡ true))
    ⊎ ((d' ≡ gone d) × (is_open d ≡ true))

abbrev pub AllKeptOrGone : List (List ℕ) → List DeviceState → List DeviceState → Type 0
AllKeptOrGone paths [] [] = Unit
AllKeptOrGone paths [] (d' ∷ ds') = ⊥
AllKeptOrGone paths (d ∷ ds) [] = ⊥
AllKeptOrGone paths (d ∷ ds) (d' ∷ ds') = KeptOrGone paths d d' × AllKeptOrGone paths ds ds'

-- What is left of a list of paths names no others.
abbrev IsPart : List (List ℕ) → List (List ℕ) → Type 0
IsPart current paths =
    (c : ℕ) (q : List ℕ) → is_listed (c ∷ q) current ≡ true → is_listed (c ∷ q) paths ≡ true

claim_path-listed :
    (path : List ℕ) (current : List (List ℕ)) → (claim_path path current).0 ≡ is_listed path current
unfolding claim_path
claim_path-listed path [] = refl
claim_path-listed path (p ∷ ps) = elim (Bool-cases (same_text path p)) [
  | inl e ↦ rw e refl
  | inr e ↦ rw e (claim_path-listed path ps)
]

claim_path-IsPart :
    (path : List ℕ) (current : List (List ℕ)) → IsPart (claim_path path current).1 current
unfolding claim_path same_text
claim_path-IsPart path [] c q h = h
claim_path-IsPart path (p ∷ ps) c q h = go (claim_path-IsPart path ps) (same_text path p) h
  where
    rest : List (List ℕ)
    rest = (claim_path path ps).1

    widen :
        IsPart rest ps
        → (b : Bool) → b || is_listed (c ∷ q) rest ≡ true
        → b || is_listed (c ∷ q) ps ≡ true
    widen ih true e = refl
    widen ih false e = ih c q e

    either : (b : Bool) → is_listed (c ∷ q) ps ≡ true → b || is_listed (c ∷ q) ps ≡ true
    either true e = refl
    either false e = e

    go :
        IsPart rest ps
        → (b : Bool)
        → is_listed (c ∷ q) (
            (if◌then◌else◌ {A = Bool × List (List ℕ)} b
              (true, [] ∷ rest)
              ((claim_path path ps).0, p ∷ rest)).1)
          ≡ true
        → same_text (c ∷ q) p || is_listed (c ∷ q) ps ≡ true
    go ih true e = either (same_text (c ∷ q) p) (ih c q e)
    go ih false e = widen ih (same_text (c ∷ q) p) e

c_string-cons :
    (d : DeviceState) → is_open d ≡ true → (c : ℕ) × (q : List ℕ) × (c_string d.open_device ≡ c ∷ q)
unfolding c_string
c_string-cons d h = go d.open_device h
  where
    go :
        (s : List ℕ)
        → not (get_or s 0 0 == 0) ≡ true
        → (c : ℕ) × (q : List ℕ) × (c_string s ≡ c ∷ q)
    go [] e = cc
    go (x ∷ xs) e = (x, c_string xs, ground arith)

module _ {m : Machine} where
  tell_removed-Talks : (d : DeviceState) (fd : ℕ) → Talks {m = m} (tell_removed d fd)
  unfolding tell_removed
  tell_removed-Talks d fd =
      talk_then _ _ (talk_send fd 9 _) (talk_then _ _ (talk_send fd 8 d.serial) (talk_send fd 3 _))

module _ {m : Machine} (bus : Bus m) where
  -- The step that removes devices, on what is left of the listed paths.
  remove_devices-IsPart :
      (sockets : List ℤ) (devices : List DeviceState) (paths current : List (List ℕ)) (w : World m)
      → IsPart current paths
      → Returned
          (remove_devices bus sockets devices current w)
          (λ r v. AllKeptOrGone paths devices r.0 × (v.sent ≡ w.sent))
  unfolding remove_devices close_device
  remove_devices-IsPart sockets [] paths current w part = (tt, refl)
  remove_devices-IsPart sockets (d ∷ ds) paths current w part = elim (Bool-cases (is_open d)) [
    | inr shut ↦ rw shut (
        Returned->>= (remove_devices bus sockets ds current) _ w _ _
          (remove_devices-IsPart sockets ds paths current w part)
          (λ r v (kept, e). ((inl (refl, λ h. cc), kept), e)))
    | inl opened ↦ rw opened (
        claimed (λ v. remove_devices-IsPart sockets ds paths (claim_path path current).1 v less)
          opened)
  ]
    where
      path : List ℕ
      path = c_string d.open_device

      less : IsPart (claim_path path current).1 paths
      less = λ c q h. part c q (claim_path-IsPart path current c q h)

      whole :
          (c : ℕ) × (q : List ℕ) × (path ≡ c ∷ q)
          → is_listed path current ≡ true
          → is_listed path paths ≡ true
      whole (c, q, e) h = rw e (part c q (rw (← e) h))

      kept_listed :
          is_open d ≡ true → (claim_path path current).0 ≡ true → is_listed path paths ≡ true
      kept_listed opened found =
          whole (c_string-cons d opened) (sym (claim_path-listed path current) ∙ found)

      claimed :
          ((v : World m)
            → Returned
                (remove_devices bus sockets ds (claim_path path current).1 v)
                (λ r x. AllKeptOrGone paths ds r.0 × (x.sent ≡ v.sent)))
          → is_open d ≡ true
          → Returned {A = List DeviceState × List (List ℕ)}
              ((if (claim_path path current).0
                  then (remove_devices bus sockets ds (claim_path path current).1 >>= λ r.
                      pure (d ∷ r.0, r.1))
                  else (do
                    to_clients sockets (tell_removed d)
                    close_device bus d.handle
                    r ← remove_devices bus sockets ds (claim_path path current).1
                    pure (gone d ∷ r.0, r.1)))
                w)
              (λ r v. AllKeptOrGone paths (d ∷ ds) r.0 × (v.sent ≡ w.sent))
      claimed rest opened = elim (Bool-cases ((claim_path path current).0)) [
        | inl found ↦ rw found (
            Returned->>= (remove_devices bus sockets ds (claim_path path current).1) _ w _ _
              (rest w) (λ r v (kept, e). ((inl (refl, λ _. kept_listed opened found), kept), e)))
        | inr lost ↦ rw lost (
            Returned->>= (to_clients sockets (tell_removed d)) _ w (λ _ v. IsSpeech w v) _
              (to_clients-Talks sockets (tell_removed d) (tell_removed-Talks d) w)
              (λ _ v s.
                let v' = record v { outside = bus.hid_close d.handle v.outside } in
                Returned->>= (remove_devices bus sockets ds (claim_path path current).1) _ v' _ _
                  (rest v') (λ r x (kept, e). ((inr (refl, opened), kept), e ∙ s.sent))))
      ]

  pub remove_devices-AllKeptOrGone :
      (sockets : List ℤ) (devices : List DeviceState) (paths : List (List ℕ)) (w : World m)
      → Returned
          (remove_devices bus sockets devices paths w)
          (λ r v. AllKeptOrGone paths devices r.0 × (v.sent ≡ w.sent))
  remove_devices-AllKeptOrGone sockets devices paths w =
      remove_devices-IsPart sockets devices paths paths w (λ c q h. h)
