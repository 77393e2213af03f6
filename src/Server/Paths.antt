-- ===== src/Server/Paths.antt =====
-- The paths that hid_enumerate names: the step of monitorDevices that removes devices keeps them.
use plasma_trim_cli.Base.{
  ℤ, ℕ, zero, suc, ◌<◌, ◌≡◌, refl, ◌≢◌, inl, inr, true, not, List, [], ◌∷◌, arith, ◌==◌, lt→ltb,
  Bool-cases, length, get_or, take, All, c_string, same_text,
}
use plasma_trim_cli.Machine.{Machine, World}
use plasma_trim_cli.Machine.Partial.{Unless, Unless->>=, Unless-then}
use plasma_trim_cli.Server.State.{DeviceState}
use plasma_trim_cli.Server.Command.{is_open}
use plasma_trim_cli.Server.Info.{to_clients}
use plasma_trim_cli.Server.Monitor.{
  Bus, fill, all_fit, claim_path, tell_removed, close_device, remove_devices,
}

-- A path that is not empty does not begin with the terminator.
abbrev pub IsPath : List ℕ → Type 0
IsPath [] = Unit
IsPath (c ∷ cs) = c ≢ 0

pub fill_first : (c : ℕ) (cs : List ℕ) → c ≢ 0 → not (get_or (fill 32 (c ∷ cs)) 0 0 == 0) ≡ true
unfolding c_string
fill_first c cs h = ground arith

claim_path-IsPath :
    (path : List ℕ) (current : List (List ℕ))
    → All IsPath current
    → All IsPath (claim_path path current).1
unfolding claim_path
claim_path-IsPath path [] h = tt
claim_path-IsPath path (p ∷ ps) h = elim (Bool-cases (same_text path p)) [
  | inl e ↦ rw e (tt, claim_path-IsPath path ps h.1)
  | inr e ↦ rw e (h.0, claim_path-IsPath path ps h.1)
]

pub take_paths : (n : ℕ) (ps : List (List ℕ)) → All IsPath ps → All IsPath (take n ps)
take_paths zero ps h = tt
take_paths (suc n) [] h = tt
take_paths (suc n) (p ∷ ps) h = (h.0, take_paths n ps h.1)

pub all_fit_lem :
    (n : ℕ) (ps : List (List ℕ)) → All (λ p. length p < 32) ps → all_fit (take n ps) ≡ true
all_fit_lem zero ps h = refl
all_fit_lem (suc n) [] h = refl
all_fit_lem (suc n) (p ∷ ps) h = rw (lt→ltb (length p) 32 h.0) (all_fit_lem n ps h.1)

module _ {m : Machine} (bus : Bus m) where
  pub remove_devices-IsPath :
      (sockets : List ℤ) (ds : List DeviceState) (current : List (List ℕ)) (w : World m)
      → All IsPath current
      → Unless (λ r. All IsPath r.1) (remove_devices bus sockets ds current w)
  unfolding remove_devices
  remove_devices-IsPath sockets [] current w h = h
  remove_devices-IsPath sockets (d ∷ ds) current w h = elim (Bool-cases (is_open d)) [
    | inr e ↦ rw e (
        Unless->>= (remove_devices bus sockets ds current) _ w (λ r. All IsPath r.1) _
          (remove_devices-IsPath sockets ds current w h) (λ r v all. all))
    | inl e ↦
        let path = c_string d.open_device in
        let left = claim_path-IsPath path current h in
        rw e (elim (Bool-cases ((claim_path path current).0)) [
          | inl found ↦ rw found (
              Unless->>= (remove_devices bus sockets ds (claim_path path current).1) _ w
                (λ r. All IsPath r.1) _
                (remove_devices-IsPath sockets ds (claim_path path current).1 w left)
                (λ r v all. all))
          | inr lost ↦ rw lost (
              Unless-then (to_clients sockets (tell_removed d)) _ w (λ r. All IsPath r.1)
                (λ _ v.
                  Unless-then (close_device bus d.handle) _ v (λ r. All IsPath r.1)
                    (λ _ v.
                      Unless->>= (remove_devices bus sockets ds (claim_path path current).1) _ v
                        (λ r. All IsPath r.1) _
                        (remove_devices-IsPath sockets ds (claim_path path current).1 v left)
                        (λ r x all. all))))
        ])
  ]

  -- What hid_enumerate names are paths below 32 characters.
  abbrev pub NamesPaths : Type 0
  NamesPaths =
      (o : m.Outside)
      → All IsPath (bus.hid_enumerate o) × All (λ p. length p < 32) (bus.hid_enumerate o)
