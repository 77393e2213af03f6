-- ===== src/Sequence/Commands.antt =====
-- A whole file of download is uploaded: the commands around the loop.
use plasma_trim_cli.Base.{
  ℤ, pos, negsuc, ℕ, ◌+◌, ◌-◌, ◌≤◌, min, max, ◌≡◌, refl, ap, ◌∙◌, true, Option, none, some, List,
  [], ◌∷◌, ◌++◌, append-nil, arith, length, replicate, All, for_by, u8, c_string,
}
use mathlib.Core.Path.{subst}
use plasma_trim_cli.Hex.{byte_value}
use plasma_trim_cli.Color.{make_color, skip_spaces, strip_spaces, standardize, pack_digits}
use plasma_trim_cli.Machine.{Machine, World, M, ◌>>=◌, ◌>>◌, pure, uninitialised}
use plasma_trim_cli.Machine.Laws.{Returned, Returned->>=, Returned_map, IsResponsive, IsSent}
use plasma_trim_cli.Device.{command, start, stop, set_color, get_brightness, set_active_slots}
use plasma_trim_cli.Device.Laws.{color_bytes, setters-IsSent}
use plasma_trim_cli.Device.Info.{get_brightness-IsSent}
use plasma_trim_cli.Sequence.Upload.{
  UploadState, UploadCall, upload_init, upload_loop, upload, black,
}
use plasma_trim_cli.Sequence.RoundTrip.{IsSlot, programmed}
use plasma_trim_cli.Sequence.Whole.{sequence_file, Looped, upload_loop-Looped}

make_black : make_color black true ≡ some (replicate 26 0, black)
unfolding make_color skip_spaces strip_spaces standardize pack_digits for_by c_string byte_value
make_black = refl

-- The commands around the loop: what upload sends for a file of download, newest first.
abbrev pub uploaded : ℕ → List (List ℕ) → ℕ → List (ℕ × List ℕ) → List (ℕ × List ℕ)
uploaded handle cmds brightness before =
    (handle, 0x02 ∷ replicate 31 0)
    ∷ (handle, 0x04 ∷ max 1 (min (length cmds) 76) ∷ replicate 30 0)
    ∷ programmed handle 0 cmds (
        (handle, color_bytes (replicate 26 0) brightness)
        ∷ (handle, command 0x0C)
        ∷ (handle, command 0x03)
        ∷ before)

-- The commands in front of the loop, the last one first.
abbrev pub prepared : ℕ → ℕ → List (ℕ × List ℕ) → List (ℕ × List ℕ)
prepared handle brightness before =
    (handle, color_bytes (replicate 26 0) brightness)
    ∷ (handle, command 0x0C)
    ∷ (handle, command 0x03)
    ∷ before

module _ {m : Machine} (responsive : IsResponsive m) (call : UploadCall) where
  -- One more report is on record, and the rest goes on from there.
  then_send :
      {A B : Type 0} (f : M m A) (cmd : List ℕ) (k : A → M m B) (w : World m)
      (Q : B → World m → Type 0)
      → Returned (f w) (λ _ v. IsSent call.handle cmd w v)
      → ((a : A) (v : World m) → v.sent ≡ (call.handle, cmd) ∷ w.sent → Returned (k a v) Q)
      → Returned ((f >>= k) w) Q
  then_send f cmd k w Q h next =
      Returned->>= f k w (λ _ v. IsSent call.handle cmd w v) Q h (λ a v s. next a v (s.sent))

  -- The end of upload: the number of slots is set, and the sequence starts.
  abbrev pub finish : UploadState → M m ℤ
  finish u =
      set_active_slots call.handle (u8 (u.active_slots + 256 - u.loop_start))
      >> (start call.handle >> pure (pos 0))

  finish-sent :
      (n : ℕ) (u : UploadState) (w : World m)
      → n ≤ 76
      → u.active_slots ≡ n
      → u.loop_start ≡ 0
      → Returned (finish u w) (λ r v.
        (r ≡ pos 0)
        × (v.sent
            ≡ (call.handle, 0x02 ∷ replicate 31 0)
              ∷ (call.handle, 0x04 ∷ max 1 (min n 76) ∷ replicate 30 0)
              ∷ w.sent))
  finish-sent n u w small ea el =
      let e : u8 (u.active_slots + 256 - u.loop_start) ≡ n = ground (arith, ea, el, small) in
      rw e (
        then_send (set_active_slots call.handle n) _ _ w _
          ((setters-IsSent responsive call.handle [] 0 n w).3)
          (λ _ v ev.
            then_send (start call.handle) _ _ v _
              ((setters-IsSent responsive call.handle [] 0 0 v).0)
              (λ _ v' ev'. (refl, ev' ∙ ap (λ t. (call.handle, 0x02 ∷ replicate 31 0) ∷ t) ev))))

  -- What upload does with the result of its loop.
  abbrev pub ending : Option UploadState → M m ℤ
  ending result = elim result [ none ↦ pure (negsuc 0) | some u ↦ finish u ]

  -- upload comes to its loop, with the device stopped and black.
  pub upload-prepared :
      (file : List (List ℕ)) (w : World m) (Q : ℤ → World m → Type 0)
      → ((b stale : ℕ) (v : World m)
          → v.sent ≡ prepared call.handle b w.sent
          → Returned ((upload_loop 256 call file (upload_init stale) >>= ending) v) Q)
      → Returned (upload call file w) Q
  unfolding upload uninitialised
  upload-prepared file w Q next =
      let h = call.handle in
      then_send (stop h) (command 0x03) _ w _ ((setters-IsSent responsive h [] 0 0 w).1) (λ _ w₁ s₁.
        rw make_black (
          then_send (get_brightness h) (command 0x0C) _ w₁ _ (get_brightness-IsSent responsive h w₁)
            (λ b w₂ s₂.
              then_send (set_color h (replicate 26 0) b) (color_bytes (replicate 26 0) b) _ w₂ _
                ((setters-IsSent responsive h (replicate 26 0) b 0 w₂).4)
                (λ _ w₃ s₃. next b (m.stale_char w.outside) w₃ (rw (s₃, s₂, s₁) refl)))))

  -- The lines of such a file, with any lines behind them, are uploaded in the same way.
  pub upload-lines :
      (cmds behind : List (List ℕ)) (w : World m)
      → length cmds ≤ 76
      → All IsSlot cmds
      → call.blank ≡ true
      → Returned
          (upload call (sequence_file (length cmds) cmds ++ behind) w)
          (λ r v. (r ≡ pos 0) × (b : ℕ) × (v.sent ≡ uploaded call.handle cmds b w.sent))
  upload-lines cmds behind w small slots e =
      let file = sequence_file (length cmds) cmds ++ behind in
      upload-prepared file w _ (λ b stale w₃ s₃.
        Returned->>= (upload_loop 256 call file (upload_init stale)) ending w₃
          (Looped responsive call cmds w₃) _
          (upload_loop-Looped responsive call cmds behind stale w₃ small slots e)
          (λ r w₄ (u, er, ea, el, es). rw er (
            Returned_map (finish u w₄) _ _ (finish-sent (length cmds) u w₄ small ea el)
              (λ r' v (e0, e1). (e0, b, rw (e1, es, s₃) refl)))))

  -- The file that download prints for n ≤ 76 reports of slots, with n active slots, is uploaded: if the
  -- devices answer and the reports hold bytes and times below 10, then upload with `blank` comes back
  -- with 0. It has stopped the device, asked for its brightness, made it black, sent for each slot in
  -- turn the report with that slot's colour and times, set the number of slots to n, or to 1 for n = 0,
  -- and started it.
  pub upload-sequence_file :
      (cmds : List (List ℕ)) (w : World m)
      → length cmds ≤ 76
      → All IsSlot cmds
      → call.blank ≡ true
      → Returned
          (upload call (sequence_file (length cmds) cmds) w)
          (λ r v. (r ≡ pos 0) × (b : ℕ) × (v.sent ≡ uploaded call.handle cmds b w.sent))
  upload-sequence_file cmds w small slots e =
      subst
        (λ file.
          Returned (upload call file w)
            (λ r v. (r ≡ pos 0) × (b : ℕ) × (v.sent ≡ uploaded call.handle cmds b w.sent)))
        (append-nil (sequence_file (length cmds) cmds)) (upload-lines cmds [] w small slots e)
