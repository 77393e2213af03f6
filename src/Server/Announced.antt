-- ===== src/Server/Announced.antt =====
-- What monitorDevices tells the clients of a device that it has opened.
use plasma_trim_cli.Base.{
  ℤ, pos, pos_part, ltb_ℤ, ℕ, ◌≡◌, refl, inl, inr, Bool, true, false, List, [], ◌∷◌, ltb, ◌==◌,
  Bool-cases, length, get_or, take, All, codes, c_string,
}
use plasma_trim_cli.Machine.{Machine, World, M, ◌>>◌, when, send}
use plasma_trim_cli.Machine.Laws.{Returned, Returned->>=, Returned_map, Returned-both}
use mathlib.Core.List.{Mem}
use plasma_trim_cli.Server.State.{DeviceState, send_text, status_code}
use plasma_trim_cli.Server.Info.{to_clients, device_info, status_info, send_percent}
use plasma_trim_cli.Server.Talk.{
  IsSpeech, IsSpeech-refl, IsSpeech-trans, Talks, talk_send, talk_then, talk_when,
  status_info-Talks, Says, Says-send, Says-first, Says-later,
}
use plasma_trim_cli.Server.Monitor.{tell_added}

module _ {m : Machine} where
  -- What is told behind the name.
  abbrev behind_name : ℕ → DeviceState → M m (Unit {0})
  behind_name fd d = do
    send_text fd (codes "\r\n")
    when (ltb 0 (status_code d.status)) (do
      send_text fd (codes "Saved Brightness: ")
      send_percent fd d.brightness
      send_text fd (codes "%\r\n")
      send_text fd (codes "Temp Brightness: ")
      send_percent fd d.temp_brightness
      send_text fd (codes "%\r\n")
      status_info fd d)

  behind_name-Talks : (fd : ℕ) (d : DeviceState) → Talks (behind_name fd d)
  behind_name-Talks fd d = talk_then _ _ (talk_send fd 2 _) (
      talk_when _ _ (
        talk_then _ _ (talk_send fd 18 _) (
          talk_then _ _ (talk_send fd 3 _) (
            talk_then _ _ (talk_send fd 3 _) (
              talk_then _ _ (talk_send fd 17 _) (
                talk_then _ _ (talk_send fd 3 _)
                  (talk_then _ _ (talk_send fd 3 _) (status_info-Talks fd d))))))))

  -- What is told from the name on.
  named-Talks :
      (fd : ℕ) (d : DeviceState)
      → Talks (send fd d.name (length (c_string d.name)) >> behind_name fd d)
  named-Talks fd d = talk_then _ _ (talk_send fd _ d.name) (behind_name-Talks fd d)

  device_info-Talks : (fd : ℕ) (d : DeviceState) → Talks {m = m} (device_info fd d)
  unfolding device_info
  device_info-Talks fd d = talk_when _ _ (
      talk_then _ _ (talk_send fd 8 _) (
        talk_then _ _ (talk_send fd 8 d.serial)
          (talk_then _ _ (talk_send fd 8 _) (named-Talks fd d))))

  tell_added-Talks : (d : DeviceState) (fd : ℕ) → Talks {m = m} (tell_added d fd)
  unfolding tell_added
  tell_added-Talks d fd =
      talk_then _ _ (talk_send fd 9 _) (talk_then _ _ (device_info-Talks fd d) (talk_send fd 10 _))

-- The texts of an announcement that name the device, if its serial number is not empty.
abbrev named_texts : Bool → DeviceState → List (List ℕ)
named_texts true d = []
named_texts false d = take 8 d.serial ∷ take (length (c_string d.name)) d.name ∷ []

-- The texts of an announcement that the theorems ask for.
abbrev pub announced : DeviceState → List (List ℕ)
announced d = codes "[added]\r\n" ∷ codes "[/added]\r\n" ∷ named_texts (get_or d.serial 0 0 == 0) d

-- The client has been sent these texts.
abbrev HasAll : ℕ → List (List ℕ) → List (ℕ × List ℕ) → Type 0
HasAll fd texts replies = All (λ text. Mem (fd, text) replies) texts

-- Every client, that is every socket above 0, has been sent these texts.
abbrev pub AllTold : List ℤ → List (List ℕ) → List (ℕ × List ℕ) → Type 0
AllTold [] texts replies = Unit
AllTold (socket ∷ sockets) texts replies =
    (ltb_ℤ (pos 0) socket ≡ true → HasAll (pos_part socket) texts replies)
    × AllTold sockets texts replies

module _ {m : Machine} where
  -- It says all these texts.
  abbrev SaysAll : ℕ → List (List ℕ) → M m (Unit {0}) → Type 0
  SaysAll fd texts f =
      (w : World m) → Returned (f w) (λ _ v. IsSpeech w v × HasAll fd texts v.replies)

  SaysAll-none : (fd : ℕ) (f : M m (Unit {0})) → Talks f → SaysAll fd [] f
  SaysAll-none fd f h w = Returned_map (f w) _ _ (h w) (λ _ v s. (s, tt))

  SaysAll-cons :
      (fd : ℕ) (text : List ℕ) (texts : List (List ℕ)) (f : M m (Unit {0}))
      → Says (fd, text) f
      → SaysAll fd texts f
      → SaysAll fd (text ∷ texts) f
  SaysAll-cons fd text texts f h k w =
      Returned_map (f w) _ _ (Returned-both (f w) _ _ (h w) (k w))
        (λ _ v ((s, said), (_, more)). (s, (said, more)))

  -- The serial number and the name, of a device whose serial number is not empty.
  device_info-Says :
      (fd : ℕ) (d : DeviceState)
      → (get_or d.serial 0 0 == 0) ≡ false
      → Says {m = m} (fd, take 8 d.serial) (device_info fd d)
        × Says {m = m} (fd, take (length (c_string d.name)) d.name) (device_info fd d)
  unfolding device_info
  device_info-Says fd d e = rw e (
    Says-later _ _ _ (talk_send fd 8 _) (
        Says-first _ _ _ (Says-send fd 8 d.serial)
          (talk_then _ _ (talk_send fd 8 _) (named-Talks fd d))),
    Says-later _ _ _ (talk_send fd 8 _) (
        Says-later _ _ _ (talk_send fd 8 d.serial) (
          Says-later _ _ _ (talk_send fd 8 _) (
            Says-first _ _ _ (Says-send fd (length (c_string d.name)) d.name)
              (behind_name-Talks fd d)))),
  )

  -- What is told of the device is told between "[added]" and "[/added]".
  inside-Says :
      (fd : ℕ) (d : DeviceState) (text : List ℕ)
      → Says {m = m} (fd, text) (device_info fd d)
      → Says {m = m} (fd, text) (tell_added d fd)
  unfolding tell_added
  inside-Says fd d text h =
      Says-later _ _ _ (talk_send fd 9 _) (Says-first _ _ _ h (talk_send fd 10 _))

  named_texts-SaysAll :
      (fd : ℕ) (d : DeviceState) (b : Bool)
      → (get_or d.serial 0 0 == 0) ≡ b
      → SaysAll fd (named_texts b d) (tell_added {m = m} d fd)
  named_texts-SaysAll fd d true e = SaysAll-none fd (tell_added d fd) (tell_added-Talks d fd)
  named_texts-SaysAll fd d false e =
      let (serial, name) = device_info-Says fd d e in
      let named = take (length (c_string d.name)) d.name in
      SaysAll-cons fd (take 8 d.serial) (named ∷ []) (tell_added d fd) (inside-Says fd d _ serial) (
        SaysAll-cons fd named [] (tell_added d fd) (inside-Says fd d _ name)
          (SaysAll-none fd (tell_added d fd) (tell_added-Talks d fd)))

  marks-Says :
      (fd : ℕ) (d : DeviceState)
      → Says {m = m} (fd, codes "[added]\r\n") (tell_added d fd)
        × Says {m = m} (fd, codes "[/added]\r\n") (tell_added d fd)
  unfolding tell_added
  marks-Says fd d = (
    Says-first _ _ _ (Says-send fd 9 (codes "[added]\r\n"))
        (talk_then _ _ (device_info-Talks fd d) (talk_send fd 10 _)),
    Says-later _ _ _ (talk_send fd 9 _)
        (Says-later _ _ _ (device_info-Talks fd d) (Says-send fd 10 (codes "[/added]\r\n"))),
  )

  tell_added-SaysAll :
      (fd : ℕ) (d : DeviceState) → SaysAll fd (announced d) (tell_added {m = m} d fd)
  tell_added-SaysAll fd d =
      let (opening, closing) = marks-Says fd d in
      let named = named_texts (get_or d.serial 0 0 == 0) d in
      SaysAll-cons fd (codes "[added]\r\n") (codes "[/added]\r\n" ∷ named) (tell_added d fd) opening
        (SaysAll-cons fd (codes "[/added]\r\n") named (tell_added d fd) closing
          (named_texts-SaysAll fd d (get_or d.serial 0 0 == 0) refl))

  HasAll-later :
      (fd : ℕ) (texts : List (List ℕ)) {w v : World m}
      → IsSpeech w v
      → HasAll fd texts w.replies
      → HasAll fd texts v.replies
  HasAll-later fd [] s h = tt
  HasAll-later fd (text ∷ texts) s h = (s.said _ h.0, HasAll-later fd texts s h.1)

  pub to_clients-AllTold :
      (sockets : List ℤ) (d : DeviceState) (w : World m)
      → Returned
          (to_clients sockets (tell_added d) w)
          (λ _ v. IsSpeech w v × AllTold sockets (announced d) v.replies)
  unfolding to_clients
  to_clients-AllTold [] d w = (IsSpeech-refl w, tt)
  to_clients-AllTold (socket ∷ sockets) d w = elim (Bool-cases (ltb_ℤ (pos 0) socket)) [
    | inl e ↦ rw e (
        Returned->>= (tell_added d (pos_part socket)) _ w _ _
          (tell_added-SaysAll (pos_part socket) d w)
          (λ _ v (s, said).
            Returned_map (to_clients sockets (tell_added d) v) _ _ (to_clients-AllTold sockets d v)
              (λ _ x (s', h). (
                IsSpeech-trans s s',
                ((λ _. HasAll-later (pos_part socket) (announced d) s' said), h),
              ))))
    | inr e ↦ rw e (
        Returned_map (to_clients sockets (tell_added d) w) _ _ (to_clients-AllTold sockets d w)
          (λ _ x (s, h). (s, ((λ f. cc), h))))
  ]
