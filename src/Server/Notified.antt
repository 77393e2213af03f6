-- ===== src/Server/Notified.antt =====
-- Every command but upload comes back, and tells the clients what it changed.
use plasma_trim_cli.Base.{
  negsuc, ℕ, ◌<◌, ◌≡◌, ap, ◌∙◌, ◌≢◌, inl, inr, Bool, true, false, some, List, [], ◌∷◌, ◌++◌, ◌==◌,
  Bool-cases, length, get_or, All, codes,
}
use plasma_trim_cli.Color.{make_color}
use plasma_trim_cli.Color.Format.{make_color_returns, make_color_empty}
use plasma_trim_cli.Machine.{Machine, World, M, ◌>>◌, when, send}
use plasma_trim_cli.Machine.Laws.{Returned, Returned->>=, IsResponsive}
use plasma_trim_cli.Device.{command, start, set_color, get_color}
use plasma_trim_cli.Device.Laws.{send_command-IsSent}
use plasma_trim_cli.Timing.Fade.{get_color-print_color}
use plasma_trim_cli.Server.State.{
  Status, is_status, DeviceState, Instance, command_at, is_command, is_missing,
}
use plasma_trim_cli.Server.Run.{
  brightness_at, color_command, is_upload, is_download, is_permitted, force_unlock_command,
  permitted_command, run_thread,
}
use plasma_trim_cli.Server.Handlers.{
  Steps, answered, sent_then, choose, lock-Steps, release-Steps, unlock-Steps, start-Steps,
  stop-Steps, name-Steps, brightness-Steps, show_color-Steps, unknown-Steps,
}
use plasma_trim_cli.Server.Long.{fade-Steps, download-Steps}
use plasma_trim_cli.Server.Step.{IsStep, IsStep-none, IsStep-new_temp, not_locked, IsStep-forget}

-- A colour argument that makeColor comes back from: a C string below 256 characters. One that is taken
-- for missing is empty.
pub record IsArgument (instance_data : Instance) : Type 0 where
  pub text : List ℕ
  pub tail : List ℕ
  pub memory : command_at instance_data 2 ≡ text ++ (0 ∷ tail)
  pub nonzero : All (λ c. c ≢ 0) text
  pub short : length text < 256
  pub missing : is_missing instance_data 2 ≡ true → text ≡ []

module _ {m : Machine} (responsive : IsResponsive m) (i : Instance) where
  sent_text_then :
      (d : DeviceState) (text : List ℕ) (n : ℕ) (k : M m DeviceState) (w : World m)
      → ((v : World m) → Steps responsive i d k v)
      → Steps responsive i d (send i.output text n >> k) w
  unfolding send
  sent_text_then d text n k w h = h _

  restart_then :
      (d : DeviceState) (b : Bool) (k : M m DeviceState) (w : World m)
      → ((v : World m) → Steps responsive i d k v)
      → Steps responsive i d (when b (start i.handle) >> k) w
  unfolding start
  restart_then d true k w h =
      sent_then responsive i d (start i.handle) _ _ w
        (send_command-IsSent responsive i.handle (command 0x02) w) (λ _ v. h v)
  restart_then d false k w h = h w

  -- The `color` command without a colour: what is shown is sent, and then the empty colour is shown.
  query_color-Steps :
      (d : DeviceState) (tail : List ℕ) (w : World m)
      → command_at i 2 ≡ 0 ∷ tail
      → is_missing i 2 ≡ true
      → Steps responsive i d (color_command i d) w
  unfolding color_command set_color
  query_color-Steps d tail w e missing = rw missing (
      rw e (
        rw (make_color_empty true tail) (
          sent_then responsive i d (set_color i.handle _ d.temp_brightness) _ _ w
            (send_command-IsSent responsive i.handle _ w)
            (λ _ v₁. answered responsive i d d 10 _ _ v₁ (λ v₂.
              Returned->>= (get_color i.handle) _ v₂ _ _
                (get_color-print_color responsive i.handle v₂)
                (λ shown v₃ _. sent_text_then d _ 55 _ v₃ (λ v₄. sent_text_then d _ 3 _ v₄ (λ v₅.
                  restart_then d (is_status d.status Status.play) _ v₅ (λ v₆.
                    show_color-Steps responsive i d d (0 ∷ tail) _ v₆ (make_color_empty true tail)
                      (IsStep-none i.output d))))))))))

  color-Steps :
      (d : DeviceState) (w : World m) → IsArgument i → Steps responsive i d (color_command i d) w
  unfolding color_command
  color-Steps d w a = elim (Bool-cases (is_missing i 2)) [
    | inl missing ↦
        query_color-Steps d a.tail w (a.memory ∙ ap (λ t. t ++ (0 ∷ a.tail)) (a.missing missing))
          missing
    | inr given ↦ colored given
  ]
    where
      result : (r : List ℕ × List ℕ) × (make_color (command_at i 2) true ≡ some r)
      result = rw (a.memory) (make_color_returns true a.text a.tail a.nonzero a.short)

      colored : is_missing i 2 ≡ false → Steps responsive i d (color_command i d) w
      colored given = rw given (
          choose responsive i d (get_or (command_at i 3) 0 0 == 0) _ _ w
            (λ _. show_color-Steps responsive i d d _ result.0 w result.1 (IsStep-none i.output d))
            (λ _.
              show_color-Steps responsive i d _ _ result.0 w result.1
                (IsStep-new_temp i.output (brightness_at i 3) d)))

  permitted-Steps :
      (shade : ℕ → ℕ → ℕ → ℕ → ℕ) (d : DeviceState) (w : World m)
      → IsArgument i
      → is_upload i ≡ false
      → Steps responsive i d (permitted_command shade i d) w
  unfolding permitted_command
  permitted-Steps shade d w a no_upload = rw no_upload (
      choose responsive i d (is_command i 1 (codes "lock")) _ _ w (λ _. lock-Steps responsive i d w)
        (λ _.
          choose responsive i d (is_command i 1 (codes "unlock")) _ _ w
            (λ _. unlock-Steps responsive i d w)
            (λ _.
              choose responsive i d (is_command i 1 (codes "start")) _ _ w
                (λ _. start-Steps responsive i d w)
                (λ _.
                  choose responsive i d (is_command i 1 (codes "stop")) _ _ w
                    (λ _. stop-Steps responsive i d w)
                    (λ _.
                      choose responsive i d (is_command i 1 (codes "name")) _ _ w
                        (λ _. name-Steps responsive i d w)
                        (λ _.
                          choose responsive i d (is_command i 1 (codes "brightness")) _ _ w
                            (λ _. brightness-Steps responsive i d w)
                            (λ _.
                              choose responsive i d (is_command i 1 (codes "color")) _ _ w
                                (λ _. color-Steps d w a)
                                (λ _.
                                  choose responsive i d (is_command i 1 (codes "fade")) _ _ w
                                    (λ _.
                                      fade-Steps responsive i shade d w a.text a.tail a.memory
                                        a.nonzero a.short)
                                    (λ _.
                                      choose responsive i d (is_download i) _ _ w
                                        (λ _. download-Steps responsive i d w)
                                        (λ _. unknown-Steps responsive i d w))))))))))

  force-Steps : (d : DeviceState) (w : World m) → Steps responsive i d (force_unlock_command i d) w
  unfolding force_unlock_command
  force-Steps d w =
      choose responsive i d (is_status d.status Status.lock) _ _ w
        (λ _. release-Steps responsive i d w)
        (λ e.
          answered responsive i d d 10 _ _ w
            (λ _. IsStep-forget i.output d (negsuc 0) (not_locked d.status e)))

  -- Every command but upload comes back if the devices answer and its argument is a
  -- text below 256 characters. It keeps the identity of the device; it sets the bit of each of name,
  -- brightness, temporary brightness and status that it changes and clears no bit; and a device that is
  -- locked afterwards was locked before by the same client, or is locked by this one.
  pub run_thread-IsStep :
      (shade : ℕ → ℕ → ℕ → ℕ → ℕ) (d : DeviceState) (w : World m)
      → IsArgument i
      → is_upload i ≡ false
      → Returned (run_thread shade i d w) (λ d' _. IsStep i.output d d')
  unfolding run_thread
  run_thread-IsStep shade d w a no_upload =
      choose responsive i d (is_permitted i d) _ _ w (λ _. permitted-Steps shade d w a no_upload)
        (λ _.
          choose responsive i d (is_command i 1 (codes "force unlock")) _ _ w (λ _. force-Steps d w)
            (λ _. answered responsive i d d 10 _ _ w (λ _. IsStep-none i.output d)))
