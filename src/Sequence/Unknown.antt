-- ===== src/Sequence/Unknown.antt =====
-- A file of an unknown format.
use plasma_trim_cli.Base.{negsuc, ℕ, ◌≡◌, refl, ◌∙◌, false, none, List, arith}
use plasma_trim_cli.Machine.{Machine, World, pure}
use plasma_trim_cli.Machine.Laws.{Returned, Returned->>=, IsResponsive}
use plasma_trim_cli.Sequence.Upload.{
  UploadState, UploadCall, upload_init, line_of, is_last, read_version, upload_round, upload_loop,
  upload, next_line,
}
use plasma_trim_cli.Sequence.Rounds.{loop_round, loop_stop, round_passed}
use plasma_trim_cli.Sequence.Whole.{notice}
use plasma_trim_cli.Sequence.Commands.{prepared, ending, upload-prepared}

module _ {m : Machine} (responsive : IsResponsive m) (call : UploadCall) where
  -- The version is looked at in line 1.
  unknown_round :
      (line : List ℕ) (u : UploadState) (w : World m)
      → u.line_number ≡ 1
      → read_version line ≡ none
      → Returned (upload_round call line u w) (λ r v. (r ≡ none) × (v.sent ≡ w.sent))
  unfolding upload_round
  unknown_round line u w at unknown =
      rw at (rw unknown (notice call.warn _ (pure none) w _ (λ v e. (refl, e))))

  unknown_loop :
      (file : List (List ℕ)) (stale : ℕ) (w : World m)
      → is_last (line_of file 0) ≡ false
      → is_last (line_of file 1) ≡ false
      → read_version (line_of file 1) ≡ none
      → Returned
          (upload_loop 256 call file (upload_init stale) w)
          (λ r v. (r ≡ none) × (v.sent ≡ w.sent))
  unknown_loop file stale w title version unknown =
      let u = upload_init stale in
      loop_round 255 call file u w (line_of file 0) (λ u' v. (u' ≡ next_line u) × (v ≡ w)) _ refl
        title
        (rw (round_passed call (line_of file 0) u w (omega arith) (omega arith) refl)
          (_, refl, (refl, refl)))
        (λ u' v (eu, ev).
          rw (eu, ev)
            (loop_stop 254 call file (next_line u) w (line_of file 1) refl version
              (unknown_round (line_of file 1) (next_line u) w refl unknown)))

  -- A file with two lines that are not empty, whose version is not known, is refused: upload returns
  -- -1, and nothing but the stop, the question for the brightness and the black colour has been sent.
  -- So no slot is written and the device is not started again.
  pub upload-unknown_version :
      (file : List (List ℕ)) (w : World m)
      → is_last (line_of file 0) ≡ false
      → is_last (line_of file 1) ≡ false
      → read_version (line_of file 1) ≡ none
      → Returned
          (upload call file w)
          (λ r v. (r ≡ negsuc 0) × (b : ℕ) × (v.sent ≡ prepared call.handle b w.sent))
  upload-unknown_version file w title version unknown =
      upload-prepared responsive call file w _ (λ b stale w₃ s₃.
        Returned->>= (upload_loop 256 call file (upload_init stale)) (ending responsive call) w₃
          (λ r v. (r ≡ none) × (v.sent ≡ w₃.sent)) _
          (unknown_loop file stale w₃ title version unknown)
          (λ r v (er, es). rw er (refl, b, es ∙ s₃)))
