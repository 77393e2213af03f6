-- ===== src/Sequence/Fetched.antt =====
-- What download asks for and what file it makes.
use plasma_trim_cli.Base.{
  ℕ, zero, suc, ◌≡◌, refl, ap, Bool, some, List, [], ◌∷◌, if◌then◌else◌, length, replicate,
}
use plasma_trim_cli.Machine.{Machine, World, pure}
use plasma_trim_cli.Machine.Laws.{Returned, Returned->>=, Returned-equation, IsResponsive, IsSent}
use plasma_trim_cli.Device.{command, query, get_active_slots}
use plasma_trim_cli.Device.Laws.{query-IsSent}
use plasma_trim_cli.Device.Info.{get_active_slots-IsSent}
use plasma_trim_cli.Sequence.Line.{slot_line}
use plasma_trim_cli.Sequence.Download.{slot_request, fetch_slots, download}
use plasma_trim_cli.Sequence.RoundTrip.{slot_lines}
use plasma_trim_cli.Sequence.Whole.{sequence_file}

-- The requests for `n` slots from `i` on, the last one first, in front of what was sent before.
abbrev pub requested : ℕ → ℕ → ℕ → List (ℕ × List ℕ) → List (ℕ × List ℕ)
requested handle zero i before = before
requested handle (suc n) i before =
    requested handle n (suc i) ((handle, 0x07 ∷ i ∷ replicate 30 0) ∷ before)

-- The device answers the requests for the slots from `i` on with these reports, one after the other,
-- from the world `w` to the world `v`.
abbrev pub Answers : {m : Machine} → ℕ → ℕ → List (List ℕ) → World m → World m → Type 0
Answers handle i [] w v = v ≡ w
Answers {m} handle i (cmd ∷ cmds) w v =
    (x : World m) × (query handle (slot_request i) w ≡ some (cmd, x))
    × Answers handle (suc i) cmds x v

module _ {m : Machine} (responsive : IsResponsive m) where
  -- What the rounds that are left bring.
  abbrev pub Fetched : ℕ → ℕ → ℕ → World m → List (List ℕ) → World m → Type 0
  Fetched handle n i w lines v =
      (cmds : List (List ℕ)) × (length cmds ≡ n)
      × Answers handle i cmds w v
      × (lines ≡ slot_lines i cmds)
      × (v.sent ≡ requested handle n i w.sent)

  fetch_slots-Fetched :
      (handle n i : ℕ) (w : World m) → Returned (fetch_slots handle n i w) (Fetched handle n i w)
  unfolding fetch_slots
  fetch_slots-Fetched handle zero i w = ([], refl, refl, refl, refl)
  fetch_slots-Fetched handle (suc n) i w =
      Returned->>= (query handle (slot_request i)) _ w
        (λ cmd v.
          (query handle (slot_request i) w ≡ some (cmd, v)) × IsSent handle (slot_request i) w v)
        _
        (Returned-equation (query handle (slot_request i) w) _
          (query-IsSent responsive handle (slot_request i) w))
        (λ cmd v (answer, s).
          Returned->>= (fetch_slots handle n (suc i)) (λ lines. pure (slot_line i cmd ∷ lines)) v
            (Fetched handle n (suc i) v) _ (fetch_slots-Fetched handle n (suc i) v)
            (λ lines v' (cmds, el, more, ef, es). (
              cmd ∷ cmds,
              ap suc el,
              (v, answer, more),
              ap (λ t. slot_line i cmd ∷ t) ef,
              rw (← s.sent) es,
            )))

  -- download comes back if the devices answer. It asks for the number of active slots and then for
  -- the slots 0, 1, … in turn, as many as are active with `blank` and 76 without. Its file has the title,
  -- the version, the number of active slots that the device has answered, a line for each slot with the
  -- report that the device has answered for it, black lines up to 76 and an empty line.
  pub download-sequence_file :
      (handle : ℕ) (blank : Bool) (w : World m)
      → Returned (download handle blank w) (λ file v.
        (active : ℕ) × (x : World m) × (cmds : List (List ℕ)) × (get_active_slots handle w
          ≡ some (active, x))
        × (length cmds ≡ (if blank then active else 76))
        × Answers handle 0 cmds x v
        × (file ≡ sequence_file active cmds)
        × (v.sent ≡ requested handle (length cmds) 0 ((handle, 0x05 ∷ replicate 31 0) ∷ w.sent)))
  unfolding download
  download-sequence_file handle blank w =
      Returned->>= (get_active_slots handle) _ w
        (λ active v.
          (get_active_slots handle w ≡ some (active, v)) × IsSent handle (command 0x05) w v)
        _
        (Returned-equation (get_active_slots handle w) _
          (get_active_slots-IsSent responsive handle w))
        (λ active v (answer, s).
          let n = if blank then active else 76 in
          Returned->>= (fetch_slots handle n 0) _ v (Fetched handle n 0 v) _
            (fetch_slots-Fetched handle n 0 v)
            (λ lines v' (cmds, el, answers, ef, es).
              (active, v, cmds, answer, el, answers, rw (ef, ← el) refl, rw (el, ← s.sent) es)))
