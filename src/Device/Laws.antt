-- ===== src/Device/Laws.antt =====
-- Every command sends exactly one report and comes back, if the devices answer.
use plasma_trim_cli.Base.{
  ℕ, min, max, ◌≡◌, refl, Bool, true, false, List, ◌∷◌, ◌++◌, arith, ◌==◌, get_or, replicate,
  tabulate,
}
use plasma_trim_cli.Machine.{Machine, World, ◌>>=◌, when, write_report, uninitialised, poll, pure}
use plasma_trim_cli.Machine.Laws.{
  Returned, Returned_map, Returned->>=, IsResponsive, IsQuiet, poll-IsQuiet, IsSent,
}
use plasma_trim_cli.Device.{
  query, read_data, send_command, set_brightness, start, stop, set_color, color_report,
  set_active_slots, clamp_slots,
}

-- The report of setColor: code 0, 24 bytes of colour, the brightness and zeros.
abbrev pub color_bytes : List ℕ → ℕ → List ℕ
color_bytes color brightness =
    0x00 ∷ (tabulate 24 0 (λ k. get_or color k 0) ++ (brightness ∷ replicate 6 0))

color_report-table :
    (color : List ℕ) (brightness : ℕ) → color_report color brightness ≡ color_bytes color brightness
unfolding color_report
color_report-table color brightness = refl

clamp_slots_lem : (slots : ℕ) → clamp_slots slots ≡ max 1 (min slots 76)
unfolding clamp_slots
clamp_slots_lem slots = ground arith

module _ {m : Machine} (responsive : IsResponsive m) where
  written : World m → ℕ → List ℕ → World m
  written w handle cmd = record w {
    outside = m.hid_write handle cmd w.outside;
    sent = (handle, cmd) ∷ w.sent;
  }

  quiet-IsSent :
      (handle : ℕ) (cmd : List ℕ) (w : World m) {v : World m}
      → IsQuiet (written w handle cmd) v
      → IsSent handle cmd w v
  unfolding written
  quiet-IsSent handle cmd w q = record {
    sent = q.sent;
    stdout = q.stdout;
    stderr = q.stderr;
    replies = q.replies;
    slept = q.slept;
  }

  pub query-IsSent :
      (handle : ℕ) (cmd : List ℕ) (w : World m)
      → Returned (query handle cmd w) (λ _ w'. IsSent handle cmd w w')
  unfolding query write_report written
  query-IsSent handle cmd w =
      Returned_map (poll m.patience handle cmd (written w handle cmd)) _ _
        (poll-IsQuiet m.patience handle cmd (written w handle cmd)
          (responsive handle cmd w.outside))
        (λ _ v q. quiet-IsSent handle cmd w q)

  when-IsQuiet :
      (b : Bool) (handle : ℕ) (cmd : List ℕ) (w : World m)
      → Returned (poll m.patience handle cmd w) (λ _ v. IsQuiet w v)
      → Returned (when b (poll m.patience handle cmd >>= λ _. pure tt) w) (λ _ v. IsQuiet w v)
  when-IsQuiet true handle cmd w h =
      Returned->>= (poll m.patience handle cmd) (λ _. pure tt) w (λ _ v. IsQuiet w v) _ h
        (λ _ v q. q)
  when-IsQuiet false handle cmd w h = record {
    sent = refl;
    stdout = refl;
    stderr = refl;
    replies = refl;
    slept = omega arith;
  }

  pub send_command-IsSent :
      (handle : ℕ) (cmd : List ℕ) (w : World m)
      → Returned (send_command handle cmd w) (λ _ w'. IsSent handle cmd w w')
  unfolding send_command read_data write_report written uninitialised
  send_command-IsSent handle cmd w =
      let after = written w handle cmd in
      Returned_map
        (when (m.stale_char after.outside == 0)
          (poll m.patience handle (replicate 32 0) >>= λ _. pure tt) after)
        _ _
        (when-IsQuiet (m.stale_char after.outside == 0) handle (replicate 32 0) after
          (poll-IsQuiet m.patience handle (replicate 32 0) after (responsive handle cmd w.outside)))
        (λ _ v q. quiet-IsSent handle cmd w q)

  -- The five commands that write a setting: one report each, with the bytes that the device expects.
  -- The slot count is brought into 1 to 76, and zeros fill what a command does not use.
  pub setters-IsSent :
      (handle : ℕ) (color : List ℕ) (brightness slots : ℕ) (w : World m)
      → Returned (start handle w) (λ _ v. IsSent handle (0x02 ∷ replicate 31 0) w v)
        × Returned (stop handle w) (λ _ v. IsSent handle (0x03 ∷ replicate 31 0) w v)
        × Returned
            (set_brightness handle brightness w)
            (λ _ v. IsSent handle (0x0B ∷ brightness ∷ replicate 30 0) w v)
        × Returned
            (set_active_slots handle slots w)
            (λ _ v. IsSent handle (0x04 ∷ max 1 (min slots 76) ∷ replicate 30 0) w v)
        × Returned
            (set_color handle color brightness w)
            (λ _ v. IsSent handle (color_bytes color brightness) w v)
  unfolding start stop set_brightness set_active_slots set_color
  setters-IsSent handle color brightness slots w = (
    send_command-IsSent handle _ w,
    send_command-IsSent handle _ w,
    send_command-IsSent handle _ w,
    rw (← clamp_slots_lem slots) (send_command-IsSent handle _ w),
    rw (← color_report-table color brightness) (send_command-IsSent handle _ w),
  )
