-- ===== src/Sequence/Whole.antt =====
-- The loop of upload on a whole file of download.
use plasma_trim_cli.Base.{
  ℕ, zero, suc, ◌+◌, ◌-◌, ◌≤◌, ◌≡◌, refl, sym, ap, ◌∙◌, Bool, true, false, Option, some, List, [],
  ◌∷◌, ◌++◌, append_assoc, arith, length, get_or, All, length-append, get_or-append_here, codes,
  c_string, same_text,
}
use mathlib.Core.Path.{subst}
use plasma_trim_cli.Decimal.{decimal_padded}
use plasma_trim_cli.Decimal.Laws.{decimal_padded_two}
use plasma_trim_cli.Machine.{Machine, World, M, ◌>>◌, pure, when, fprintf_stderr}
use plasma_trim_cli.Machine.Laws.{Returned, Returned->>=, IsResponsive}
use plasma_trim_cli.Sequence.Line.{crlf, title_line, simple_version}
use plasma_trim_cli.Sequence.Download.{black_lines}
use plasma_trim_cli.Sequence.Upload.{
  UploadState, UploadCall, upload_init, upload_round, upload_loop, read_version, read_counts,
  limit_slots, settings_line, next_line, two_digits,
}
use plasma_trim_cli.Sequence.Rounds.{upload_loop_end, loop_round}
use plasma_trim_cli.Sequence.RoundTrip.{
  IsSlot, slot_lines, programmed, AtSlot, slots_loop, black_loop,
}

-- The file of download for a device with `n` active slots, from the reports of the slots that it fetched.
abbrev pub settings_text : ℕ → List ℕ
settings_text n = codes "Active Slots: " ++ (decimal_padded 2 n ++ crlf)

abbrev pub sequence_file : ℕ → List (List ℕ) → List (List ℕ)
sequence_file n cmds =
    (title_line ++ crlf)
    ∷ (simple_version ++ crlf)
    ∷ settings_text n
    ∷ (slot_lines 0 cmds ++ (black_lines (76 - length cmds) (length cmds) ++ (crlf ∷ [])))

settings_digits : (n : ℕ) → n ≤ 76 → two_digits (settings_text n) 14 ≡ n
settings_digits n h = rw (decimal_padded_two n (omega arith)) (omega arith)

read_simple_version : read_version (simple_version ++ crlf) ≡ some false
unfolding read_version same_text c_string
read_simple_version = refl

-- The variables in front of line `k`.
abbrev in_front : ℕ → ℕ → UploadState
in_front stale k = record (upload_init stale) { line_number = k }

read_settings :
    (n id stale : ℕ)
    → n ≤ 76
    → read_counts (settings_text n) id (in_front stale 2)
      ≡ some (record (in_front stale 2) { active_slots = n })
unfolding read_counts
read_settings n id stale h = rw (settings_digits n h) refl

limit-AtSlot :
    (n stale : ℕ)
    → n ≤ 76
    → AtSlot 0 n (next_line (limit_slots true (record (in_front stale 2) { active_slots = n })))
unfolding limit_slots
limit-AtSlot n stale h = record {
  at = refl;
  plain = refl;
  first = refl;
  loop = refl;
  load = ground arith;
  active = refl;
}

module _ {m : Machine} where
  -- A notice goes to stderr, or none does: nothing is sent.
  pub notice :
      {B : Type 0} (warn : Bool) (text : List ℕ) (k : M m B) (w : World m)
      (Q : B → World m → Type 0)
      → ((v : World m) → v.sent ≡ w.sent → Returned (k v) Q)
      → Returned ((when warn (fprintf_stderr text) >> k) w) Q
  unfolding fprintf_stderr
  notice true text k w Q h = h _ refl
  notice false text k w Q h = h w refl

  settings_line-AtSlot :
      (call : UploadCall) (n stale : ℕ) (w : World m)
      → n ≤ 76
      → call.blank ≡ true
      → Returned
          (settings_line call (settings_text n) (in_front stale 2) w)
          (λ u v. AtSlot 0 n (next_line u) × (v.sent ≡ w.sent))
  unfolding settings_line
  settings_line-AtSlot call n stale w h e =
      rw (read_settings n call.id stale h)
        (notice call.warn _ (pure _) w _ (λ v q. (rw e (limit-AtSlot n stale h), q)))

  settings_round :
      (call : UploadCall) (n stale : ℕ) (w : World m)
      → n ≤ 76
      → call.blank ≡ true
      → Returned
          (upload_round call (settings_text n) (in_front stale 2) w)
          (λ r v. (u : UploadState) × (r ≡ some u) × (AtSlot 0 n u × (v.sent ≡ w.sent)))
  unfolding upload_round
  settings_round call n stale w h e =
      Returned->>= (settings_line call (settings_text n) (in_front stale 2)) _ w _ _
        (settings_line-AtSlot call n stale w h e) (λ u v q. (next_line u, refl, q))

  title_round :
      (call : UploadCall) (stale : ℕ) (w : World m)
      → upload_round call (title_line ++ crlf) (in_front stale 0) w
        ≡ some (some (in_front stale 1), w)
  unfolding upload_round
  title_round call stale w = refl

  version_round :
      (call : UploadCall) (stale : ℕ) (w : World m)
      → upload_round call (simple_version ++ crlf) (in_front stale 1) w
        ≡ some (some (in_front stale 2), w)
  unfolding upload_round read_version same_text c_string
  version_round call stale w = refl

abbrev header_lines : ℕ → List (List ℕ)
header_lines n = (title_line ++ crlf) ∷ (simple_version ++ crlf) ∷ settings_text n ∷ []

pub length-slot_lines : (i : ℕ) (cmds : List (List ℕ)) → length (slot_lines i cmds) ≡ length cmds
length-slot_lines i [] = refl
length-slot_lines i (cmd ∷ cmds) = ap suc (length-slot_lines (suc i) cmds)

pub length-black_lines : (k i : ℕ) → length (black_lines k i) ≡ k
unfolding black_lines
length-black_lines zero i = refl
length-black_lines (suc k) i = ap suc (length-black_lines k (suc i))

-- The parts of a file with more lines behind it.
file_layout :
    (n : ℕ) (cmds behind : List (List ℕ))
    → sequence_file n cmds ++ behind
      ≡ header_lines n
        ++ (slot_lines 0 cmds ++ (black_lines (76 - length cmds) (length cmds) ++ (crlf ∷ behind)))
file_layout n cmds behind =
    let black = black_lines (76 - length cmds) (length cmds) in
    ap (λ t. header_lines n ++ t)
      (append_assoc (slot_lines 0 cmds) (black ++ (crlf ∷ [])) behind
        ∙ ap (λ t. slot_lines 0 cmds ++ t) (append_assoc black (crlf ∷ []) behind))

-- The empty line behind the 76 slots.
end_line :
    (cmds behind : List (List ℕ)) (k : ℕ)
    → k ≡ 3 + (length cmds + (76 - length cmds))
    → length cmds ≤ 76
    → get_or (sequence_file (length cmds) cmds ++ behind) k [] ≡ crlf
end_line cmds behind k e small =
    let n = length cmds in
    let front = header_lines n ++ slot_lines 0 cmds in
    let black = black_lines (76 - n) n in
    ap (λ file. get_or file k [])
      (file_layout n cmds behind ∙ sym (append_assoc front black (crlf ∷ behind)))
    ∙ get_or-append_here (front ++ black) behind crlf [] k (
        omega (
          arith,
          length-append front black,
          length-append (header_lines n) (slot_lines 0 cmds),
          length-slot_lines 0 cmds,
          length-black_lines (76 - n) n,
        ))

module _ {m : Machine} (responsive : IsResponsive m) (call : UploadCall) where
  -- How the loop ends: with the variables behind `n` slots, and the reports of the slots sent.
  abbrev pub Looped : List (List ℕ) → World m → Option UploadState → World m → Type 0
  Looped cmds w r v =
      (u : UploadState) × (r ≡ some u)
      × (u.active_slots ≡ length cmds)
      × (u.loop_start ≡ 0)
      × (v.sent ≡ programmed call.handle 0 cmds w.sent)

  body_loop :
      (cmds behind : List (List ℕ)) (u : UploadState) (w : World m)
      → length cmds ≤ 76
      → All IsSlot cmds
      → AtSlot 0 (length cmds) u
      → Returned
          (upload_loop 253 call (sequence_file (length cmds) cmds ++ behind) u w)
          (Looped cmds w)
  body_loop cmds behind u w small slots at =
      let n = length cmds in
      let file = sequence_file n cmds ++ behind in
      let black = black_lines (76 - n) n in
      let front = header_lines n ++ slot_lines 0 cmds in
      slots_loop responsive call file cmds 0 n 253 (253 - n) (header_lines n)
        (black ++ (crlf ∷ behind)) u w _ (file_layout n cmds behind) refl (omega arith) small
        (omega arith) slots at
        (λ u' v at' sent.
          black_loop responsive call file (76 - n) n n (253 - n) 177 front (crlf ∷ behind) u' v _
            (file_layout n cmds behind) (omega (arith, length-slot_lines 0 cmds)) (omega arith)
            (omega arith) (omega arith) (subst (λ k. AtSlot k n u') (omega arith) at')
            (λ u'' at''.
              rw
                (upload_loop_end 176 call file u'' v crlf
                  (end_line cmds behind u''.line_number at''.at small) refl)
                (u'', refl, at''.active, at''.loop, sent)))

  pub upload_loop-Looped :
      (cmds behind : List (List ℕ)) (stale : ℕ) (w : World m)
      → length cmds ≤ 76
      → All IsSlot cmds
      → call.blank ≡ true
      → Returned
          (upload_loop 256 call (sequence_file (length cmds) cmds ++ behind) (upload_init stale) w)
          (Looped cmds w)
  upload_loop-Looped cmds behind stale w small slots e =
      let n = length cmds in
      let file = sequence_file n cmds ++ behind in
      loop_round 255 call file (upload_init stale) w (title_line ++ crlf)
        (λ u v. (u ≡ in_front stale 1) × (v ≡ w)) _ refl refl
        (rw (title_round call stale w) (_, refl, (refl, refl)))
        (λ u v (eu, ev).
          rw (eu, ev)
            (loop_round 254 call file (in_front stale 1) w (simple_version ++ crlf)
              (λ u v. (u ≡ in_front stale 2) × (v ≡ w)) _ refl refl
              (rw (version_round call stale w) (_, refl, (refl, refl)))
              (λ u v (eu, ev).
                rw (eu, ev)
                  (loop_round 253 call file (in_front stale 2) w (settings_text n)
                    (λ u v. AtSlot 0 n u × (v.sent ≡ w.sent)) _ refl refl
                    (settings_round call n stale w small e)
                    (λ u v (at, q). rw (← q) (body_loop cmds behind u v small slots at))))))
