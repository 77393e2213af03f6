-- ===== src/Server/Long.antt =====
-- The commands that take long: fade and download come back too.
use plasma_trim_cli.Base.{
  ℕ, zero, suc, ◌-◌, ◌<◌, ◌≡◌, ◌≢◌, Bool, true, false, not, some, List, [], ◌∷◌, ◌++◌, ◌==◌,
  if◌then◌else◌, length, get_or, All, c_string,
}
use plasma_trim_cli.Color.{make_color, pack_digits}
use plasma_trim_cli.Color.Format.{make_color_packs, make_color-terminated}
use plasma_trim_cli.Machine.{Machine, World, M, ◌>>◌, delay, send}
use plasma_trim_cli.Machine.Laws.{Returned, Returned->>=, Returned_map, IsResponsive}
use plasma_trim_cli.Device.{get_color}
use plasma_trim_cli.Sequence.{download, slot_line, black_line, black_lines, crlf}
use plasma_trim_cli.Sequence.RoundTrip.{slot_lines}
use plasma_trim_cli.Sequence.Whole.{sequence_file}
use plasma_trim_cli.Sequence.Fetched.{download-sequence_file}
use plasma_trim_cli.Timing.{fade, fade_pace, color_table, show_rows}
use plasma_trim_cli.Timing.Fade.{converted, get_color-print_color, show_rows-shown}
use plasma_trim_cli.Server.State.{DeviceState, Instance, command_at, answer}
use plasma_trim_cli.Server.Run.{
  brightness_at, new_temp_brightness, fade_command, is_full_upload, send_lines, download_command,
}
use plasma_trim_cli.Server.Step.{IsStep, IsStep-none, IsStep-trans, IsStep-new_temp, IsStep-settle}
use plasma_trim_cli.Server.Handlers.{Steps}

module _ {m : Machine} (responsive : IsResponsive m) where
  -- fade comes back for any memory that makeColor comes back from.
  fade-Returned :
      {B : Type 0} (shade : ℕ → ℕ → ℕ → ℕ → ℕ) (handle brightness : ℕ) (color time : List ℕ)
      (r : List ℕ × List ℕ) (k : M m B) (w : World m) (Q : B → World m → Type 0)
      → make_color color true ≡ some r
      → ((v : World m) → Returned (k v) Q)
      → Returned ((fade shade handle color time brightness >> k) w) Q
  unfolding fade
  fade-Returned shade handle brightness color time r k w Q e next =
      Returned->>= (fade shade handle color time brightness) (λ _. k) w (λ _ _. Unit {0}) Q faded
        (λ _ v _. next v)
    where
      faded : Returned (fade shade handle color time brightness w) (λ _ _. Unit {0})
      faded =
          Returned->>= (get_color handle) _ w _ _ (get_color-print_color responsive handle w)
            (λ shown v (cmd, es, s).
              let rows = color_table shade (converted cmd).buf r.0 (fade_pace (c_string time)).0 in
              rw (es, (converted cmd).returns, e)
                (Returned_map (show_rows handle rows (fade_pace (c_string time)).1 brightness v) _ _
                  (show_rows-shown responsive handle (fade_pace (c_string time)).1 brightness rows
                    v)
                  (λ _ _ _. tt)))

  module _ (i : Instance) where
    -- The colour of the fade command is converted twice.
    pub fade-Steps :
        (shade : ℕ → ℕ → ℕ → ℕ → ℕ) (d : DeviceState) (w : World m) (text tail : List ℕ)
        → command_at i 2 ≡ text ++ (0 ∷ tail)
        → All (λ c. c ≢ 0) text
        → length text < 256
        → Steps responsive i d (fade_command shade i d) w
    unfolding fade_command
    fade-Steps shade d w text tail e nonzero short =
        let once = make_color_packs true text tail nonzero short in
        let twice = make_color-terminated true once.0 in
        rw (e, once.2)
          (fade-Returned shade i.handle _ (pack_digits once.0) (command_at i 3) twice.0 _ w _
            twice.1
            (λ v.
              IsStep-trans (new_brightness (get_or (command_at i 4) 0 0 == 0))
                (IsStep-settle i.output _)))
      where
        new_brightness :
            (b : Bool)
            → IsStep i.output d (if b then d else new_temp_brightness (brightness_at i 4) d)
        new_brightness true = IsStep-none i.output d
        new_brightness false = IsStep-new_temp i.output (brightness_at i 4) d

    send_lines-Steps :
        (d : DeviceState) (cmds : List (List ℕ)) (j : ℕ) (rest : List (List ℕ)) (w : World m)
        → ((v : World m) → Returned (send_lines i d rest v) (λ _ _. Unit {0}))
        → Returned (send_lines i d (slot_lines j cmds ++ rest) w) (λ _ _. Unit {0})
    unfolding send_lines answer send delay slot_line
    send_lines-Steps d [] j rest w h = h w
    send_lines-Steps d (cmd ∷ cmds) j rest w h = send_lines-Steps d cmds (suc j) rest _ h

    send_black-Steps :
        (d : DeviceState) (n j : ℕ) (rest : List (List ℕ)) (w : World m)
        → ((v : World m) → Returned (send_lines i d rest v) (λ _ _. Unit {0}))
        → Returned (send_lines i d (black_lines n j ++ rest) w) (λ _ _. Unit {0})
    unfolding send_lines answer send delay black_line black_lines
    send_black-Steps d zero j rest w h = h w
    send_black-Steps d (suc n) j rest w h = send_black-Steps d n (suc j) rest _ h

    send_end :
        (d : DeviceState) (w : World m) → Returned (send_lines i d (crlf ∷ []) w) (λ _ _. Unit {0})
    unfolding send_lines
    send_end d w = tt

    send_file :
        (d : DeviceState) (n : ℕ) (cmds : List (List ℕ)) (w : World m)
        → Returned (send_lines i d (sequence_file n cmds) w) (λ _ _. Unit {0})
    unfolding send_lines answer send delay
    send_file d n cmds w =
        send_lines-Steps d cmds 0 _ _
          (λ v. send_black-Steps d (76 - length cmds) (length cmds) _ v (λ v'. send_end d v'))

    pub download-Steps :
        (d : DeviceState) (w : World m) → Steps responsive i d (download_command i d) w
    unfolding download_command
    download-Steps d w =
        Returned->>= (download i.handle (not (is_full_upload i))) _ w _ _
          (download-sequence_file responsive i.handle (not (is_full_upload i)) w)
          (λ file v (active, x, cmds, answer, n, answers, ef, s). rw ef (
            Returned->>= (send_lines i d (sequence_file active cmds)) _ v (λ _ _. Unit {0}) _
              (send_file d active cmds v) (λ _ v' _. IsStep-none i.output d)))
