-- ===== src/Sequence/RoundTrip.antt =====
-- The file that download makes is uploaded as the slots that it was made from.
use plasma_trim_cli.Base.{
  ℕ, zero, suc, ◌+◌, ◌/◌, ◌%◌, ◌≤◌, ◌<◌, ◌≡◌, refl, sym, ◌∙◌, false, Option, some, List, [], ◌∷◌,
  ◌++◌, append_assoc, arith, length, get_or, All, length-append, get_or-append_here,
}
use mathlib.Core.Path.{subst}
use plasma_trim_cli.Color.Digits.{AllBytes}
use plasma_trim_cli.Machine.{Machine, World}
use plasma_trim_cli.Machine.Laws.{Returned, Returned_map, IsResponsive, IsSent}
use plasma_trim_cli.Sequence.Line.{slot_line, black_line}
use plasma_trim_cli.Sequence.Download.{black_lines}
use plasma_trim_cli.Sequence.Upload.{
  UploadState, UploadCall, line_of, is_last, shift_columns, next_line, upload_round, upload_loop,
}
use plasma_trim_cli.Sequence.Slot.{program_report, slot_report-slot_line}
use plasma_trim_cli.Sequence.Rounds.{loop_round, round_passed, round_slot}

-- What a slot of a device holds, as far as the round trip needs it: bytes, and times below 10.
pub record IsSlot (cmd : List ℕ) : Type 0 where
  pub bytes : AllBytes (λ k. get_or cmd k 0)
  pub hold : get_or cmd 14 0 / 16 < 10
  pub fade : get_or cmd 14 0 % 16 < 10

-- The lines of consecutive slots from `i` on, and the reports that program them.
abbrev pub slot_lines : ℕ → List (List ℕ) → List (List ℕ)
slot_lines i [] = []
slot_lines i (cmd ∷ cmds) = slot_line i cmd ∷ slot_lines (suc i) cmds

-- The newest report stands first, in front of what was sent before.
abbrev pub programmed : ℕ → ℕ → List (List ℕ) → List (ℕ × List ℕ) → List (ℕ × List ℕ)
programmed handle i [] before = before
programmed handle i (cmd ∷ cmds) before =
    programmed handle (suc i) cmds ((handle, program_report i cmd) ∷ before)

-- The variables in front of slot `i` of a simple file with `n` slots.
pub record AtSlot (i n : ℕ) (u : UploadState) : Type 0 where
  pub at : u.line_number ≡ 3 + i
  pub plain : u.offset ≡ 0
  pub first : u.device_num ≡ 1
  pub loop : u.loop_start ≡ 0
  pub load : u.slots_to_load ≡ n
  pub active : u.active_slots ≡ n

AtSlot-next_line :
    (i n : ℕ) (u : UploadState)
    → i < 76
    → AtSlot i n u
    → AtSlot (suc i) n (next_line (shift_columns u))
AtSlot-next_line i n u h a = ground arith

AtSlot-pass : (i n : ℕ) (u : UploadState) → i < 250 → AtSlot i n u → AtSlot (suc i) n (next_line u)
AtSlot-pass i n u h a = ground arith

slot_line-not_last : (i : ℕ) (cmd : List ℕ) → is_last (slot_line i cmd) ≡ false
unfolding slot_line
slot_line-not_last i cmd = refl

black_line-not_last : (i : ℕ) → is_last (black_line i) ≡ false
unfolding black_line
black_line-not_last i = refl

line_of_slot :
    (file : List (List ℕ)) (i : ℕ) (cmd : List ℕ) (cmds : List (List ℕ)) (n : ℕ)
    (pre post : List (List ℕ)) (u : UploadState)
    → file ≡ pre ++ (slot_line i cmd ∷ (slot_lines (suc i) cmds ++ post))
    → length pre ≡ 3 + i
    → AtSlot i n u
    → line_of file u.line_number ≡ slot_line i cmd
line_of_slot file i cmd cmds n pre post u ef ep at =
    rw ef (get_or-append_here pre _ (slot_line i cmd) [] u.line_number (omega (arith, at.at)))

module _ {m : Machine} (responsive : IsResponsive m) (call : UploadCall)
    (file : List (List ℕ)) where
  slot_round :
      (i : ℕ) (cmd : List ℕ) (n : ℕ) (u : UploadState) (w : World m)
      → i < n
      → n ≤ 76
      → i < 76
      → IsSlot cmd
      → AtSlot i n u
      → Returned (upload_round call (slot_line i cmd) u w) (λ r v.
        (u' : UploadState) × (r ≡ some u')
        × (AtSlot (suc i) n u' × IsSent call.handle (program_report i cmd) w v))
  slot_round i cmd n u w lt small below slot at =
      Returned_map (upload_round call (slot_line i cmd) u w) _ _
        (round_slot responsive call (slot_line i cmd) (program_report i cmd) u w
          (omega (arith, at.at)) (omega (arith, at.at)) (ground (arith, at.at, at.load, at.loop))
          (slot_report-slot_line i cmd (shift_columns u) below slot.bytes slot.hold slot.fade
            (ground (arith, at.at, at.plain)) at.first (omega (arith, at.at, at.loop))))
        (λ r v h.
          (h.0, h.1, (subst (AtSlot (suc i) n) (sym h.2) (AtSlot-next_line i n u below at), h.3)))

  -- The lines of the slots, one report each.
  pub slots_loop :
      (cmds : List (List ℕ)) (i n fuel fuel' : ℕ) (pre post : List (List ℕ)) (u : UploadState)
      (w : World m) (Q : Option UploadState → World m → Type 0)
      → file ≡ pre ++ (slot_lines i cmds ++ post)
      → length pre ≡ 3 + i
      → i + length cmds ≤ n
      → n ≤ 76
      → fuel ≡ length cmds + fuel'
      → All IsSlot cmds
      → AtSlot i n u
      → ((u' : UploadState) (v : World m)
          → AtSlot (i + length cmds) n u'
          → v.sent ≡ programmed call.handle i cmds w.sent
          → Returned (upload_loop fuel' call file u' v) Q)
      → Returned (upload_loop fuel call file u w) Q
  slots_loop [] i n fuel fuel' pre post u w Q ef ep fits small efu slots at next =
      let e : fuel ≡ fuel' = omega arith in
      let e' : i + 0 ≡ i = omega arith in rw e (next u w (rw e' at) refl)
  slots_loop (cmd ∷ cmds) i n zero fuel' pre post u w Q ef ep fits small efu slots at next =
      absurd (omega arith)
  slots_loop (cmd ∷ cmds) i n (suc fuel) fuel' pre post u w Q ef ep fits small efu slots at next =
      loop_round fuel call file u w (slot_line i cmd)
        (λ u' v. AtSlot (suc i) n u' × IsSent call.handle (program_report i cmd) w v) Q
        (line_of_slot file i cmd cmds n pre post u ef ep at) (slot_line-not_last i cmd)
        (slot_round i cmd n u w (omega arith) small (omega arith) slots.0 at)
        (λ u' v h.
          slots_loop cmds (suc i) n fuel fuel' (pre ++ (slot_line i cmd ∷ [])) post u' v Q
            (ef ∙ sym (append_assoc pre (slot_line i cmd ∷ []) (slot_lines (suc i) cmds ++ post)))
            (omega (arith, length-append pre (slot_line i cmd ∷ []))) (omega arith) small
            (omega arith) slots.1 h.0
            (λ x y a e.
              next x y
                (let e' : suc i + length cmds ≡ i + suc (length cmds) = omega arith in rw e' at a)
                (rw (h.1.sent) at e)))

  -- The black lines behind the slots, which are passed over.
  pub black_loop :
      (k i n fuel fuel' : ℕ) (pre post : List (List ℕ)) (u : UploadState) (w : World m)
      (Q : Option UploadState → World m → Type 0)
      → file ≡ pre ++ (black_lines k i ++ post)
      → length pre ≡ 3 + i
      → n ≤ i
      → i + k ≤ 76
      → fuel ≡ k + fuel'
      → AtSlot i n u
      → ((u' : UploadState) → AtSlot (i + k) n u' → Returned (upload_loop fuel' call file u' w) Q)
      → Returned (upload_loop fuel call file u w) Q
  unfolding black_lines
  black_loop zero i n fuel fuel' pre post u w Q ef ep le small efu at next =
      let e : fuel ≡ fuel' = omega arith in
      let e' : i + 0 ≡ i = omega arith in rw e (next u (rw e' at))
  black_loop (suc k) i n zero fuel' pre post u w Q ef ep le small efu at next = absurd (omega arith)
  black_loop (suc k) i n (suc fuel) fuel' pre post u w Q ef ep le small efu at next =
      loop_round fuel call file u w (black_line i) (λ u' v. AtSlot (suc i) n u' × (v ≡ w)) Q
        (rw ef (get_or-append_here pre _ (black_line i) [] u.line_number (omega (arith, at.at))))
        (black_line-not_last i)
        (rw
          (round_passed call (black_line i) u w (omega (arith, at.at)) (omega (arith, at.at))
            (ground (arith, at.at, at.load, at.loop)))
          (next_line u, refl, (AtSlot-pass i n u (omega arith) at, refl)))
        (λ u' v h. rw (h.1) (
          black_loop k (suc i) n fuel fuel' (pre ++ (black_line i ∷ [])) post u' w Q
            (ef ∙ sym (append_assoc pre (black_line i ∷ []) (black_lines k (suc i) ++ post)))
            (omega (arith, length-append pre (black_line i ∷ []))) (omega arith) (omega arith)
            (omega arith) h.0
            (λ x a. next x (let e' : suc i + k ≡ i + suc k = omega arith in rw e' at a))))
