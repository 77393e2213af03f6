-- ===== src/Sequence/Rounds.antt =====
-- The rounds of upload's loop, one lemma for each kind of line.
use plasma_trim_cli.Base.{
  ℕ, suc, ◌≡◌, refl, ap, ◌∙◌, ◌≢◌, Bool, true, false, Option, none, some, List, arith,
}
use plasma_trim_cli.Machine.{Machine, World, M, ◌>>=◌, pure}
use plasma_trim_cli.Machine.Laws.{Returned, Returned->>=, IsResponsive, IsSent}
use plasma_trim_cli.Device.{send_command}
use plasma_trim_cli.Device.Laws.{send_command-IsSent}
use plasma_trim_cli.Sequence.Upload.{
  UploadState, UploadCall, line_of, is_last, is_slot_line, shift_columns, next_line, send_slot,
  upload_round, upload_loop,
}
use plasma_trim_cli.Sequence.Slot.{IsProgrammed}

module _ {m : Machine} where
  -- The choice that the loop makes at a line, and how it goes on.
  abbrev at_line : Bool → M m (Option UploadState) → UploadState → M m (Option UploadState)
  at_line last more u = elim last [ true ↦ pure (some u) | false ↦ more ]

  abbrev go_on : ℕ → UploadCall → List (List ℕ) → List ℕ → UploadState → M m (Option UploadState)
  go_on fuel call file line u = upload_round call line u >>= λ r. elim r [
    | none ↦ pure none
    | some v ↦ upload_loop fuel call file v
  ]

  upload_loop_lem :
      (fuel : ℕ) (call : UploadCall) (file : List (List ℕ)) (u : UploadState) (w : World m)
      → upload_loop (suc fuel) call file u w
        ≡ at_line
            (is_last (line_of file u.line_number))
            (go_on fuel call file (line_of file u.line_number) u)
            u
            w
  unfolding upload_loop
  upload_loop_lem fuel call file u w = refl

  at_line_of :
      (last b : Bool) (more : M m (Option UploadState)) (u : UploadState) (w : World m)
      → last ≡ b
      → at_line last more u w ≡ at_line b more u w
  at_line_of last b more u w e = ap (λ t. at_line t more u w) e

  upload_loop_at :
      (fuel : ℕ) (call : UploadCall) (file : List (List ℕ)) (u : UploadState) (w : World m)
      (line : List ℕ) (b : Bool)
      → line_of file u.line_number ≡ line
      → is_last line ≡ b
      → upload_loop (suc fuel) call file u w ≡ at_line b (go_on fuel call file line u) u w
  upload_loop_at fuel call file u w line b el e =
      upload_loop_lem fuel call file u w
      ∙ ap (λ t. at_line (is_last t) (go_on fuel call file t u) u w) el
      ∙ at_line_of (is_last line) b _ u w e

  pub upload_loop_end :
      (fuel : ℕ) (call : UploadCall) (file : List (List ℕ)) (u : UploadState) (w : World m)
      (line : List ℕ)
      → line_of file u.line_number ≡ line
      → is_last line ≡ true
      → upload_loop (suc fuel) call file u w ≡ some (some u, w)
  upload_loop_end fuel call file u w line el e = upload_loop_at fuel call file u w line true el e

  -- After a round that goes on with `P`, the rest of the loop is what has to be shown.
  pub loop_round :
      (fuel : ℕ) (call : UploadCall) (file : List (List ℕ)) (u : UploadState) (w : World m)
      (line : List ℕ) (P : UploadState → World m → Type 0)
      (Q : Option UploadState → World m → Type 0)
      → line_of file u.line_number ≡ line
      → is_last line ≡ false
      → Returned (upload_round call line u w) (λ r v. (u' : UploadState) × (r ≡ some u') × P u' v)
      → ((u' : UploadState) (v : World m) → P u' v → Returned (upload_loop fuel call file u' v) Q)
      → Returned (upload_loop (suc fuel) call file u w) Q
  loop_round fuel call file u w line P Q el e round next =
      rw (upload_loop_at fuel call file u w line false el e)
        (Returned->>= (upload_round call line u) _ w _ Q round (λ r v h. rw (h.1) (next h.0 v h.2)))

  -- A round that gives up ends the loop.
  pub loop_stop :
      (fuel : ℕ) (call : UploadCall) (file : List (List ℕ)) (u : UploadState) (w : World m)
      (line : List ℕ)
      → line_of file u.line_number ≡ line
      → is_last line ≡ false
      → Returned (upload_round call line u w) (λ r v. (r ≡ none) × (v.sent ≡ w.sent))
      → Returned (upload_loop (suc fuel) call file u w) (λ r v. (r ≡ none) × (v.sent ≡ w.sent))
  loop_stop fuel call file u w line el e round =
      rw (upload_loop_at fuel call file u w line false el e)
        (Returned->>= (upload_round call line u) _ w _ _ round (λ r v h. rw (h.0) (refl, h.1)))

  -- A line behind the slots that are loaded, or in front of them, is passed over.
  pub round_passed :
      (call : UploadCall) (line : List ℕ) (u : UploadState) (w : World m)
      → u.line_number ≢ 1
      → u.line_number ≢ 2
      → is_slot_line u ≡ false
      → upload_round call line u w ≡ some (some (next_line u), w)
  unfolding upload_round
  round_passed call line u w a b e = ground arith

module _ {m : Machine} (responsive : IsResponsive m) where
  is_slot :
      (call : UploadCall) (line : List ℕ) (u : UploadState) (w : World m)
      → u.line_number ≢ 1
      → u.line_number ≢ 2
      → is_slot_line u ≡ true
      → upload_round call line u w
        ≡ (send_slot call.handle line (shift_columns u) >>= λ v. pure (some (next_line v))) w
  unfolding upload_round
  is_slot call line u w a b e = ground arith

  send_slot-IsSent :
      (handle : ℕ) (line report : List ℕ) (u : UploadState) (w : World m)
      → IsProgrammed line u report
      → Returned (send_slot handle line u w) (λ u' v. (u' ≡ u) × IsSent handle report w v)
  unfolding send_slot
  send_slot-IsSent handle line report u w p = rw (p.converted) (
      rw (p.reported) (
        Returned->>= (send_command handle report) (λ _. pure u) w (λ _ v. IsSent handle report w v)
          _ (send_command-IsSent responsive handle report w) (λ _ v q. (refl, q))))

  -- A line of a slot sends its report.
  pub round_slot :
      (call : UploadCall) (line report : List ℕ) (u : UploadState) (w : World m)
      → u.line_number ≢ 1
      → u.line_number ≢ 2
      → is_slot_line u ≡ true
      → IsProgrammed line (shift_columns u) report
      → Returned (upload_round call line u w) (λ r v.
        (u' : UploadState) × (r ≡ some u')
        × (u' ≡ next_line (shift_columns u))
        × IsSent call.handle report w v)
  round_slot call line report u w a b e p = rw (is_slot call line u w a b e) (
      Returned->>= (send_slot call.handle line (shift_columns u)) _ w
        (λ u' v. (u' ≡ shift_columns u) × IsSent call.handle report w v) _
        (send_slot-IsSent call.handle line report (shift_columns u) w p)
        (λ u' v h. (next_line u', refl, ap next_line h.0, h.1)))
