-- ===== src/Server/Talk.antt =====
-- Steps that only talk to the clients.
use plasma_trim_cli.Base.{
  ℤ, pos, pos_part, ltb_ℤ, ℕ, ◌≡◌, refl, ◌∙◌, inl, inr, Bool, true, false, not, List, [], ◌∷◌,
  Bool-cases, take, codes,
}
use mathlib.Core.List.{Mem, mem-cons_of_mem, mem-cons_self}
use plasma_trim_cli.Machine.{Machine, World, M, ◌>>◌, when, send}
use plasma_trim_cli.Machine.Laws.{Returned, Returned->>=, Returned_map}
use plasma_trim_cli.Server.State.{Status, is_status, DeviceState, send_text}
use plasma_trim_cli.Server.Info.{status_info, send_update, to_clients}

module _ {m : Machine} where
  -- No device is written to, and what was said to a client stays said.
  pub record IsSpeech (w v : World m) : Type 0 where
    pub sent : v.sent ≡ w.sent
    pub said : (p : ℕ × List ℕ) → Mem p w.replies → Mem p v.replies

  pub IsSpeech-refl : (w : World m) → IsSpeech w w
  IsSpeech-refl w = record { sent = refl; said = λ p h. h }

  pub IsSpeech-trans : {u v w : World m} → IsSpeech u v → IsSpeech v w → IsSpeech u w
  IsSpeech-trans a b = record { sent = b.sent ∙ a.sent; said = λ p h. b.said p (a.said p h) }

  -- It comes back, and only talks to clients.
  abbrev pub Talks : M m (Unit {0}) → Type 0
  Talks f = (w : World m) → Returned (f w) (λ _ v. IsSpeech w v)

  pub talk_send : (fd n : ℕ) (text : List ℕ) → Talks (send fd text n)
  unfolding send
  talk_send fd n text w = record { sent = refl; said = λ p h. mem-cons_of_mem _ h }

  pub talk_then : (f g : M m (Unit {0})) → Talks f → Talks g → Talks (f >> g)
  talk_then f g h k w =
      Returned->>= f (λ _. g) w (λ _ v. IsSpeech w v) _ (h w)
        (λ _ v e. Returned_map (g v) _ _ (k v) (λ _ x e'. IsSpeech-trans e e'))

  pub talk_when : (b : Bool) (f : M m (Unit {0})) → Talks f → Talks (when b f)
  talk_when true f h = h
  talk_when false f h = λ w. IsSpeech-refl w

  pub status_info-Talks : (fd : ℕ) (d : DeviceState) → Talks (status_info fd d)
  unfolding status_info
  status_info-Talks fd d = talk_then _ _ (talk_send fd 8 _) (
      talk_then _ _ (talk_when (not (is_status d.status Status.disconnect)) _ (talk_send fd _ _))
        (talk_send fd 2 _))

  -- It also says `p`.
  abbrev pub Says : ℕ × List ℕ → M m (Unit {0}) → Type 0
  Says p f = (w : World m) → Returned (f w) (λ _ v. IsSpeech w v × Mem p v.replies)

  pub Says-send : (fd n : ℕ) (text : List ℕ) → Says (fd, take n text) (send fd text n)
  unfolding send
  Says-send fd n text w = (record { sent = refl; said = λ p h. mem-cons_of_mem _ h }, mem-cons_self)

  pub Says-first : (p : ℕ × List ℕ) (f g : M m (Unit {0})) → Says p f → Talks g → Says p (f >> g)
  Says-first p f g h k w =
      Returned->>= f (λ _. g) w (λ _ v. IsSpeech w v × Mem p v.replies) _ (h w)
        (λ _ v (e, said).
          Returned_map (g v) _ _ (k v) (λ _ x e'. (IsSpeech-trans e e', e'.said p said)))

  pub Says-later : (p : ℕ × List ℕ) (f g : M m (Unit {0})) → Talks f → Says p g → Says p (f >> g)
  Says-later p f g h k w =
      Returned->>= f (λ _. g) w (λ _ v. IsSpeech w v) _ (h w)
        (λ _ v e. Returned_map (g v) _ _ (k v) (λ _ x (e', said). (IsSpeech-trans e e', said)))

  -- The serial number of the device is said.
  pub send_update-Says : (d : DeviceState) (fd : ℕ) → Says (fd, take 8 d.serial) (send_update d fd)
  unfolding send_update
  send_update-Says d fd = Says-later _ _ _ (talk_send fd 10 _) (
      Says-later _ _ _ (talk_send fd 8 _) (
        Says-first _ _ _ (Says-send fd 8 d.serial) (
          talk_then _ _ (talk_send fd 2 _) (
            talk_then _ _
              (talk_when d.notify.name _ (
                talk_then _ _ (talk_send fd 6 _)
                  (talk_then _ _ (talk_send fd _ d.name) (talk_send fd 2 _))))
              (talk_then _ _ (talk_when d.notify.brightness _ (percent 18 _ _)) (
                talk_then _ _ (talk_when d.notify.temp_brightness _ (percent 17 _ _)) (
                  talk_then _ _ (talk_when d.notify.status _ (status_info-Talks fd d))
                    (talk_send fd 11 _))))))))
    where
      percent :
          (n : ℕ) (text number : List ℕ)
          → Talks (
              send fd text n
              >> (send fd number 3 >> (send_text fd (codes "%") >> send_text fd (codes "\r\n"))))
      percent n text number =
          talk_then _ _ (talk_send fd n _)
            (talk_then _ _ (talk_send fd 3 _) (talk_then _ _ (talk_send fd 1 _) (talk_send fd 2 _)))

  pub to_clients-Talks :
      (sockets : List ℤ) (f : ℕ → M m (Unit {0}))
      → ((fd : ℕ) → Talks (f fd))
      → Talks (to_clients sockets f)
  unfolding to_clients
  to_clients-Talks [] f h w = IsSpeech-refl w
  to_clients-Talks (socket ∷ sockets) f h w = elim (Bool-cases (ltb_ℤ (pos 0) socket)) [
    | inl e ↦ rw e (
        talk_then (f (pos_part socket)) (to_clients sockets f) (h (pos_part socket))
          (to_clients-Talks sockets f h) w)
    | inr e ↦ rw e (to_clients-Talks sockets f h w)
  ]
