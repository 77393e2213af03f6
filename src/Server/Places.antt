-- ===== src/Server/Places.antt =====
-- The places for clients in main of src/ptrim-server.cc.
use plasma_trim_cli.Base.{
  negsuc, ℕ, ◌≡◌, refl, ◌∙◌, ◌⊎◌, inl, inr, Bool, true, false, not, ◌&&◌, none, some, List, [], ◌∷◌,
  arith, ltb, Bool-cases, All,
}
use plasma_trim_cli.Machine.{Machine, World, printf}
use plasma_trim_cli.Machine.Laws.{Returned, Returned->>=, Returned_map}
use plasma_trim_cli.Net.{Net, accept_client, close_socket}
use plasma_trim_cli.Server.Accept.{
  Place, free_place, is_gone, is_free, join_gone, place_for, accept_at, accept_first, accept_round,
}

-- A client that is connected, or whose thread still has its socket.
abbrev pub is_taken : Place → Bool
is_taken p = not (is_gone p) && not (is_free p)

-- Whoever has gone has a thread to be joined.
abbrev pub IsJoinable : Place → Type 0
IsJoinable p = is_gone p ≡ true → p.is_running ≡ true

-- There is a free place, and the first one has no thread that could be joined.
abbrev pub FirstFreeIsIdle : List Place → Type 0
FirstFreeIsIdle [] = ⊥
FirstFreeIsIdle (p ∷ ps) =
    ((is_free p ≡ true) × (p.is_running ≡ false)) ⊎ ((is_free p ≡ false) × FirstFreeIsIdle ps)

-- The same number of places, and those that are taken are as they were.
abbrev pub AllKept : List Place → List Place → Type 0
AllKept [] [] = Unit
AllKept [] (q ∷ qs) = ⊥
AllKept (p ∷ ps) [] = ⊥
AllKept (p ∷ ps) (q ∷ qs) = (is_taken p ≡ true → q ≡ p) × AllKept ps qs

AllKept-refl : (ps : List Place) → AllKept ps ps
AllKept-refl [] = tt
AllKept-refl (p ∷ ps) = ((λ e. refl), AllKept-refl ps)

AllKept-trans : (ps qs rs : List Place) → AllKept ps qs → AllKept qs rs → AllKept ps rs
AllKept-trans [] [] [] h k = tt
AllKept-trans [] [] (r ∷ rs) h k = k
AllKept-trans [] (q ∷ qs) rs h k = absurd h
AllKept-trans (p ∷ ps) [] rs h k = absurd h
AllKept-trans (p ∷ ps) (q ∷ qs) [] h k = k
AllKept-trans (p ∷ ps) (q ∷ qs) (r ∷ rs) h k =
    ((λ e. let e' = h.0 e in k.0 (rw e' e) ∙ e'), AllKept-trans ps qs rs h.1 k.1)

join_gone-AllKept :
    (ps : List Place)
    → All IsJoinable ps
    → (qs : List Place) × (join_gone ps ≡ some qs) × AllKept ps qs
unfolding join_gone
join_gone-AllKept [] h = ([], refl, tt)
join_gone-AllKept (p ∷ ps) h = elim (Bool-cases (is_gone p)) [
  | inl e ↦ (free_place ∷ ps, rw (e, h.0 e) refl, ((λ t. ground arith), AllKept-refl ps))
  | inr e ↦
      let (qs, eq, kept) = join_gone-AllKept ps h.1 in
      (p ∷ qs, rw (e, eq) refl, ((λ t. refl), kept))
]

module _ {m : Machine} (net : Net m) (number_clients : ℕ) where
  place_for-Returned :
      (p : Place) (accepted : ℕ ⊎ List ℕ) (w : World m)
      → Returned (place_for net p number_clients accepted w) (λ _ v. v.sent ≡ w.sent)
  unfolding place_for printf close_socket
  place_for-Returned p (inr error) w = refl
  place_for-Returned p (inl socket) w = elim (Bool-cases (ltb number_clients 20)) [
    | inl e ↦ rw e refl
    | inr e ↦ rw e refl
  ]

  accept_at-Returned :
      (p : Place) (w : World m)
      → Returned (accept_at net p number_clients w) (λ _ v. v.sent ≡ w.sent)
  unfolding accept_at accept_client
  accept_at-Returned p w = place_for-Returned p (net.accept w.outside).0 _

  accept_first-AllKept :
      (ps : List Place) (w : World m)
      → Returned (accept_first net number_clients ps w) (λ qs v. AllKept ps qs × (v.sent ≡ w.sent))
  unfolding accept_first
  accept_first-AllKept [] w = (tt, refl)
  accept_first-AllKept (p ∷ ps) w = elim (Bool-cases (is_free p)) [
    | inl e ↦ rw e (
        Returned->>= (accept_at net p number_clients) _ w _ _ (accept_at-Returned p w)
          (λ q v s. (((λ t. ground arith), AllKept-refl ps), s)))
    | inr e ↦ rw e (
        Returned->>= (accept_first net number_clients ps) _ w _ _ (accept_first-AllKept ps w)
          (λ qs v (kept, s). (((λ t. refl), kept), s)))
  ]

  -- A round of the loop that takes clients in comes back if each client that has gone has a thread to
  -- be joined. The places that are taken stay as they are, and no device is written to.
  pub accept_round-AllKept :
      (places : List Place) (w : World m)
      → All IsJoinable places
      → Returned
          (accept_round net number_clients places w)
          (λ places' v. AllKept places places' × (v.sent ≡ w.sent))
  unfolding accept_round
  accept_round-AllKept places w joinable =
      let (joined, e, kept) = join_gone-AllKept places joinable in
      rw (e, accept_round)
        (Returned_map (accept_first net number_clients joined w) _ _ (accept_first-AllKept joined w)
          (λ _ v (kept', s). (AllKept-trans _ _ _ kept kept', s)))

  -- Whether accept fails now.
  abbrev pub Fails : World m → Type 0
  Fails w = (error : List ℕ) × ((net.accept w.outside).0 ≡ inr error)

  place_for-failed :
      (p : Place) (error : List ℕ) (w : World m)
      → Returned
          (place_for net p number_clients (inr error) w)
          (λ q v. q ≡ record p { socket_id = negsuc 0 })
  unfolding place_for printf
  place_for-failed p error w = refl

  accept_at-failed :
      (p : Place) (w : World m)
      → Fails w
      → Returned (accept_at net p number_clients w) (λ q v. q ≡ record p { socket_id = negsuc 0 })
  unfolding accept_at accept_client
  accept_at-failed p w fails = go (net.accept w.outside).0 fails.1 _
    where
      go :
          (r : ℕ ⊎ List ℕ)
          → r ≡ inr fails.0
          → (v : World m)
          → Returned
              (place_for net p number_clients r v)
              (λ q v. q ≡ record p { socket_id = negsuc 0 })
      go r e v = rw e (place_for-failed p fails.0 v)

  accept_first-failed :
      (ps : List Place) (w : World m)
      → Fails w
      → All (λ p. is_gone p ≡ false) ps
      → FirstFreeIsIdle ps
      → Returned (accept_first net number_clients ps w) (λ qs v. join_gone qs ≡ none)
  unfolding accept_first join_gone
  accept_first-failed [] w fails none_gone idle = absurd idle
  accept_first-failed (p ∷ ps) w fails none_gone (inl (free, idle)) = rw free (
      Returned->>= (accept_at net p number_clients) _ w _ _ (accept_at-failed p w fails)
        (λ q v made. rw (made, idle) refl))
  accept_first-failed (p ∷ ps) w fails none_gone (inr (taken, idle)) = rw taken (
      Returned->>= (accept_first net number_clients ps) _ w _ _
        (accept_first-failed ps w fails none_gone.1 idle)
        (λ qs v stuck_next. rw (none_gone.0, stuck_next) refl))

  none_gone-join_gone : (ps : List Place) → All (λ p. is_gone p ≡ false) ps → join_gone ps ≡ some ps
  unfolding join_gone
  none_gone-join_gone [] h = refl
  none_gone-join_gone (p ∷ ps) h = rw (h.0, none_gone-join_gone ps h.1) refl

  -- If accept fails while no client has gone, and the first free place has no thread that could be
  -- joined, the next round of the loop joins that thread all the same: it has no result, whatever the
  -- number of clients is then.
  pub accept_round-failed :
      (places : List Place) (w : World m)
      → Fails w
      → All (λ p. is_gone p ≡ false) places
      → FirstFreeIsIdle places
      → Returned
          (accept_round net number_clients places w)
          (λ places' v. (n : ℕ) → accept_round net n places' v ≡ none)
  unfolding accept_round
  accept_round-failed places w fails none_gone idle =
      rw (none_gone-join_gone places none_gone, accept_round)
        (Returned_map (accept_first net number_clients places w) _ _
          (accept_first-failed places w fails none_gone idle)
          (λ places' v e n. rw (e, accept_round) refl))
