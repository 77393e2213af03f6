-- ===== src/Server/Handlers.antt =====
-- The commands of a client, one by one: each comes back with a step of the device's record.
use plasma_trim_cli.Base.{
  negsuc, ℕ, ◌≡◌, refl, inl, inr, Bool, true, false, some, List, arith, ◌==◌, if◌then◌else◌,
  Bool-cases, codes,
}
use plasma_trim_cli.Color.{make_color}
use plasma_trim_cli.Machine.{Machine, World, M, ◌>>=◌, ◌>>◌, pure, send}
use plasma_trim_cli.Machine.Laws.{Returned, Returned->>=, IsResponsive, IsSent}
use plasma_trim_cli.Device.{
  command, start, stop, set_name, get_name, set_brightness, get_brightness, set_color, get_color,
}
use plasma_trim_cli.Device.Laws.{send_command-IsSent}
use plasma_trim_cli.Device.Info.{get_name-IsSent, get_brightness-IsSent}
use plasma_trim_cli.Timing.Fade.{converted, get_color-print_color}
use plasma_trim_cli.Server.State.{
  Status, is_status, DeviceState, notify_brightness, Instance, command_at, is_command, is_missing,
  answer,
}
use plasma_trim_cli.Server.Run.{
  brightness_at, new_temp_brightness, lock_command, release, unlock_command, start_command,
  stop_command, name_command, refresh, temp_brightness_command, save_brightness_command,
  set_brightness_command, brightness_command, show_color, unknown_command,
}
use plasma_trim_cli.Server.Step.{
  IsStep, IsStep-none, IsStep-trans, IsStep-lock, IsStep-status, IsStep-name, IsStep-brightness,
  IsStep-new_temp, IsStep-settle, no_lock,
}

module _ {m : Machine} (responsive : IsResponsive m) (i : Instance) where
  -- The command comes back, with a step of the device's record.
  abbrev pub Steps : DeviceState → M m DeviceState → World m → Type 0
  Steps d f w = Returned (f w) (λ d' _. IsStep i.output d d')

  pub answered :
      (d e : DeviceState) (n : ℕ) (text : List ℕ) (k : M m DeviceState) (w : World m)
      → ((v : World m) → Steps d k v)
      → Steps d (answer i e n text >> k) w
  unfolding answer send
  answered d e n text k w h = h _

  pub sent_then :
      {A : Type 0} (d : DeviceState) (f : M m A) (cmd : List ℕ) (k : A → M m DeviceState)
      (w : World m)
      → Returned (f w) (λ _ v. IsSent i.handle cmd w v)
      → ((a : A) (v : World m) → Steps d (k a) v)
      → Steps d (f >>= k) w
  sent_then d f cmd k w h next =
      Returned->>= f k w (λ _ v. IsSent i.handle cmd w v) _ h (λ a v _. next a v)

  pub release-Steps : (d : DeviceState) (w : World m) → Steps d (release i d) w
  unfolding release stop
  release-Steps d w =
      sent_then d (stop i.handle) _ _ w (send_command-IsSent responsive i.handle (command 0x03) w)
        (λ _ v. IsStep-status i.output d Status.idle (negsuc 0) (no_lock Status.idle (omega arith)))

  pub lock-Steps : (d : DeviceState) (w : World m) → Steps d (lock_command i d) w
  unfolding lock_command
  lock-Steps d w = elim (Bool-cases (is_status d.status Status.lock)) [
    | inl e ↦ rw e (answered d d 10 _ (pure d) w (λ _. IsStep-none i.output d))
    | inr e ↦ rw e (IsStep-lock i.output d)
  ]

  pub unlock-Steps : (d : DeviceState) (w : World m) → Steps d (unlock_command i d) w
  unfolding unlock_command
  unlock-Steps d w = elim (Bool-cases (is_status d.status Status.lock)) [
    | inl e ↦ rw e (release-Steps d w)
    | inr e ↦ rw e (answered d d 10 _ (pure d) w (λ _. IsStep-none i.output d))
  ]

  pub start-Steps : (d : DeviceState) (w : World m) → Steps d (start_command i d) w
  unfolding start_command start
  start-Steps d w =
      sent_then d (start i.handle) _ _ w (send_command-IsSent responsive i.handle (command 0x02) w)
        (λ _ v. IsStep-status i.output d Status.play d.lock (no_lock Status.play (omega arith)))

  pub stop-Steps : (d : DeviceState) (w : World m) → Steps d (stop_command i d) w
  unfolding stop_command stop
  stop-Steps d w =
      sent_then d (stop i.handle) _ _ w (send_command-IsSent responsive i.handle (command 0x03) w)
        (λ _ v. IsStep-status i.output d Status.idle d.lock (no_lock Status.idle (omega arith)))

  pub name-Steps : (d : DeviceState) (w : World m) → Steps d (name_command i d) w
  unfolding name_command set_name
  name-Steps d w =
      sent_then d (set_name i.handle (command_at i 2)) _ _ w
        (send_command-IsSent responsive i.handle _ w)
        (λ _ v.
          sent_then d (get_name i.handle) _ _ v (get_name-IsSent responsive i.handle v)
            (λ name v'. IsStep-name i.output d name))

  pub refresh-Steps :
      (d e : DeviceState) (w : World m) → IsStep i.output d e → Steps d (refresh i e) w
  unfolding refresh set_color
  refresh-Steps d e w h = elim (Bool-cases (is_status e.status Status.idle)) [
    | inr ne ↦ rw ne h
    | inl eq ↦ rw eq (
        Returned->>= (get_color i.handle) _ w _ _ (get_color-print_color responsive i.handle w)
          (λ shown v (cmd, es, s).
            rw (es, (converted cmd).returns)
              (sent_then d (set_color i.handle (converted cmd).buf e.temp_brightness) _ _ v
                (send_command-IsSent responsive i.handle _ v) (λ _ _. h))))
  ]

  -- A choice between two commands.
  pub choose :
      (d : DeviceState) (b : Bool) (f g : M m DeviceState) (w : World m)
      → (b ≡ true → Steps d f w)
      → (b ≡ false → Steps d g w)
      → Steps d (if b then f else g) w
  choose d true f g w h k = h refl
  choose d false f g w h k = k refl

  pub temp-Steps : (d : DeviceState) (w : World m) → Steps d (temp_brightness_command i d) w
  unfolding temp_brightness_command
  temp-Steps d w =
      choose d (brightness_at i 3 == d.temp_brightness) (pure d) _ w (λ _. IsStep-none i.output d)
        (λ _. refresh-Steps d _ w (IsStep-new_temp i.output (brightness_at i 3) d))

  pub save-Steps : (d : DeviceState) (w : World m) → Steps d (save_brightness_command i d) w
  unfolding save_brightness_command set_brightness
  save-Steps d w =
      choose d (d.temp_brightness == d.brightness) (pure d) _ w (λ _. IsStep-none i.output d)
        (λ _.
          sent_then d (set_brightness i.handle d.temp_brightness) _ _ w
            (send_command-IsSent responsive i.handle _ w)
            (λ _ _. IsStep-brightness i.output d d.temp_brightness))

  pub set-Steps : (d : DeviceState) (w : World m) → Steps d (set_brightness_command i d) w
  unfolding set_brightness_command set_brightness
  set-Steps d w =
      choose d (brightness_at i 2 == d.brightness) (pure d) _ w (λ _. IsStep-none i.output d)
        (λ _.
          sent_then d (set_brightness i.handle (brightness_at i 2)) _ _ w
            (send_command-IsSent responsive i.handle _ w)
            (λ _ v.
              sent_then d (get_brightness i.handle) _ _ v
                (get_brightness-IsSent responsive i.handle v)
                (λ saved v'.
                  let e = notify_brightness (record d { brightness = saved }) in
                  refresh-Steps d (new_temp_brightness saved e) v' (
                    IsStep-trans (IsStep-brightness i.output d saved)
                      (IsStep-new_temp i.output saved e)))))

  pub brightness-Steps : (d : DeviceState) (w : World m) → Steps d (brightness_command i d) w
  unfolding brightness_command
  brightness-Steps d w =
      choose d (is_command i 2 (codes "temp")) _ _ w (λ _. temp-Steps d w)
        (λ _.
          choose d (is_command i 2 (codes "reset")) _ _ w
            (λ _. IsStep-new_temp i.output d.brightness d)
            (λ _.
              choose d (is_command i 2 (codes "save")) _ _ w (λ _. save-Steps d w)
                (λ _.
                  choose d (is_missing i 3) _ _ w (λ _. set-Steps d w)
                    (λ _. IsStep-none i.output d))))

  pub show_color-Steps :
      (d e : DeviceState) (color : List ℕ) (r : List ℕ × List ℕ) (w : World m)
      → make_color color true ≡ some r
      → IsStep i.output d e
      → Steps d (show_color i e color) w
  unfolding show_color set_color
  show_color-Steps d e color r w er h = rw er (
      sent_then d (set_color i.handle r.0 e.temp_brightness) _ _ w
        (send_command-IsSent responsive i.handle _ w)
        (λ _ _. IsStep-trans h (IsStep-settle i.output e)))

  pub unknown-Steps : (d : DeviceState) (w : World m) → Steps d (unknown_command i d) w
  unfolding unknown_command send
  unknown-Steps d w = IsStep-none i.output d
