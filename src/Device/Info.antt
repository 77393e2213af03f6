-- ===== src/Device/Info.antt =====
-- showInfo.
use plasma_trim_cli.Base.{ℕ, ◌≡◌, refl, ap, ◌∙◌, List, [], ◌∷◌, ◌++◌, map, get_or}
use plasma_trim_cli.Color.{print_color}
use plasma_trim_cli.Machine.{Machine, World, M, ◌>>=◌, ◌>>◌, printf, uninitialised, pure}
use plasma_trim_cli.Machine.Laws.{Returned, Returned->>=, IsResponsive, IsSent}
use plasma_trim_cli.Device.{
  print_serial, command, query, get_serial, get_name, get_brightness, get_color, get_active_slots,
  show_info,
}
use plasma_trim_cli.Device.Laws.{query-IsSent}

module _ {m : Machine} (responsive : IsResponsive m) where
  -- A query and what only looks at its answer: one report is on record, and nothing is printed.
  query_then-IsSent :
      {A : Type 0} (handle : ℕ) (cmd : List ℕ) (f : List ℕ → A) (w : World m)
      → Returned ((query handle cmd >>= λ c. pure (f c)) w) (λ _ v. IsSent handle cmd w v)
  query_then-IsSent handle cmd f w =
      Returned->>= (query handle cmd) (λ c. pure (f c)) w (λ _ v. IsSent handle cmd w v) _
        (query-IsSent responsive handle cmd w) (λ _ v q. q)

  pub get_serial-IsSent :
      (handle : ℕ) (w : World m)
      → Returned (get_serial handle w) (λ _ v. IsSent handle (command 0x0A) w v)
  unfolding get_serial
  get_serial-IsSent handle w = query_then-IsSent handle (command 0x0A) print_serial w

  pub get_brightness-IsSent :
      (handle : ℕ) (w : World m)
      → Returned (get_brightness handle w) (λ _ v. IsSent handle (command 0x0C) w v)
  unfolding get_brightness
  get_brightness-IsSent handle w = query_then-IsSent handle (command 0x0C) (λ c. get_or c 1 0) w

  pub get_active_slots-IsSent :
      (handle : ℕ) (w : World m)
      → Returned (get_active_slots handle w) (λ _ v. IsSent handle (command 0x05) w v)
  unfolding get_active_slots
  get_active_slots-IsSent handle w = query_then-IsSent handle (command 0x05) (λ c. get_or c 1 0) w

  pub get_color-IsSent :
      (handle : ℕ) (w : World m)
      → Returned (get_color handle w) (λ _ v. IsSent handle (command 0x01) w v)
  unfolding get_color
  get_color-IsSent handle w = query_then-IsSent handle (command 0x01) print_color w

  pub get_name-IsSent :
      (handle : ℕ) (w : World m)
      → Returned (get_name handle w) (λ _ v. IsSent handle (command 0x09) w v)
  unfolding get_name uninitialised
  get_name-IsSent handle w =
      Returned->>= (query handle (command 0x09)) _ w (λ _ v. IsSent handle (command 0x09) w v) _
        (query-IsSent responsive handle (command 0x09) w) (λ _ v q. q)

  -- The reports with these codes have been sent after those of `w`, the last one first, and nothing
  -- went to stderr.
  abbrev pub Asked : ℕ → World m → List ℕ → World m → Type 0
  Asked handle w codes_sent v =
      (v.sent ≡ map (λ c. (handle, command c)) codes_sent ++ w.sent) × (v.stderr ≡ w.stderr)

  ask_and_print :
      {A : Type 0} (handle code : ℕ) (before : List ℕ) (f : M m A) (text : A → List ℕ)
      (w u : World m)
      → Asked handle w before u
      → Returned (f u) (λ _ v. IsSent handle (command code) u v)
      → Returned ((f >>= λ a. printf (text a)) u) (λ _ v. Asked handle w (code ∷ before) v)
  unfolding printf
  ask_and_print handle code before f text w u h r =
      Returned->>= f (λ a. printf (text a)) u (λ _ v. IsSent handle (command code) u v) _ r
        (λ a v q. (q.sent ∙ ap (λ t. (handle, command code) ∷ t) h.0, q.stderr ∙ h.1))

  then_ask :
      {A : Type 0} (handle code : ℕ) (before : List ℕ) (f : M m A) (text : A → List ℕ)
      (k : M m (Unit {0})) (Q : Unit {0} → World m → Type 0) (w u : World m)
      → Asked handle w before u
      → Returned (f u) (λ _ v. IsSent handle (command code) u v)
      → ((v : World m) → Asked handle w (code ∷ before) v → Returned (k v) Q)
      → Returned ((f >>= λ a. (printf (text a) >> k)) u) Q
  unfolding printf
  then_ask handle code before f text k Q w u h r next =
      Returned->>= f (λ a. (printf (text a) >> k)) u (λ _ v. IsSent handle (command code) u v) Q r
        (λ a v q. next _ (q.sent ∙ ap (λ t. (handle, command code) ∷ t) h.0, q.stderr ∙ h.1))

  -- showInfo asks for the name, the serial number, the brightness and the colour, in this order,
  -- each once, and returns.
  pub show_info-asks :
      (handle : ℕ) (w : World m)
      → Returned (show_info handle w) (λ _ v. Asked handle w (0x01 ∷ 0x0C ∷ 0x0A ∷ 0x09 ∷ []) v)
  unfolding show_info
  show_info-asks handle w =
      then_ask handle 0x09 [] (get_name handle) _ _ _ w w (refl, refl) (get_name-IsSent handle w)
        (λ a ha.
          then_ask handle 0x0A (0x09 ∷ []) (get_serial handle) _ _ _ w a ha
            (get_serial-IsSent handle a)
            (λ b hb.
              then_ask handle 0x0C (0x0A ∷ 0x09 ∷ []) (get_brightness handle) _ _ _ w b hb
                (get_brightness-IsSent handle b)
                (λ c hc.
                  ask_and_print handle 0x01 (0x0C ∷ 0x0A ∷ 0x09 ∷ []) (get_color handle) _ w c hc
                    (get_color-IsSent handle c))))
