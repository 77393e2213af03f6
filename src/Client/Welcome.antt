-- ===== src/Client/Welcome.antt =====
-- The loop of ptrim-client that waits for the greeting of the server.
use plasma_trim_cli.Base.{
  ℕ, zero, suc, ◌+◌, ◌≤◌, ◌<◌, ◌≡◌, refl, inl, inr, true, false, Option, some, List, ◌++◌, arith,
  ◌==◌, lt→ltb, Bool-cases, length, get_or, take, length-append, c_string,
}
use plasma_trim_cli.Machine.{Machine, World}
use plasma_trim_cli.Machine.Laws.{Returned}
use plasma_trim_cli.Net.{Net}
use plasma_trim_cli.Client.{
  Greeting, append_text, save_place, save_message, is_greeted, read_buffer, read_greeting,
}

-- Either text holds so many characters at most, with some more behind it.
abbrev pub Holds : Greeting → ℕ → ℕ → Type 0
Holds g more size = (length g.about + more ≤ size) × (length g.devices + more ≤ size)

append_text_lem :
    (size : ℕ) (s text : List ℕ)
    → length s + length text < size
    → append_text size s text ≡ some (s ++ text)
append_text_lem size s text h = rw (lt→ltb (length s + length text) size h) refl

-- A message that leaves fewer than 1024 characters is kept.
save_message-Holds :
    (buffer : List ℕ) (g : Greeting) (size : ℕ)
    → Holds g (length (c_string buffer)) size
    → size < 1024
    → (g' : Greeting) × (save_message buffer g ≡ some g') × Holds g' 0 size
unfolding save_message
save_message-Holds buffer g size fits room = elim (Bool-cases (to == 1)) [
  | inl e ↦ (
    record g { save_to = to; about = g.about ++ text },
    rw (e, append_text_lem 1024 g.about text (omega (arith, fits.0, room))) refl,
    (omega (arith, length-append g.about text, fits.0), omega (arith, fits.1)),
  )
  | inr e ↦ elim (Bool-cases (to == 2)) [
    | inl e' ↦ (
      record g { save_to = to; devices = g.devices ++ text },
      rw (e, e', append_text_lem 4096 g.devices text (omega (arith, fits.1, room))) refl,
      (omega (arith, fits.0), omega (arith, length-append g.devices text, fits.1)),
    )
    | inr e' ↦
        (record g { save_to = to }, rw (e, e') refl, (omega (arith, fits.0), omega (arith, fits.1)))
  ]
]
  where
    to : ℕ
    to = save_place (get_or buffer 1 0) g.save_to

    text : List ℕ
    text = c_string buffer

module _ {m : Machine} (net : Net m) (socket : ℕ) where
  -- After so many reads that bring something else, one brings "[ready]" or "[incorrect code]". With
  -- the characters that came before, the others have fewer than 1024 altogether.
  abbrev pub Greets : ℕ → ℕ → m.Outside → Type 0
  Greets zero before o =
      (bytes : List ℕ) × ((net.read socket o).0 ≡ some bytes)
      × (is_greeted (take 4095 bytes) ≡ true)
  Greets (suc n) before o =
      (bytes : List ℕ) × ((net.read socket o).0 ≡ some bytes)
      × (is_greeted (take 4095 bytes) ≡ false)
      × (before + length (c_string (take 4095 bytes)) < 1024)
      × Greets n (before + length (c_string (take 4095 bytes))) (net.read socket o).1

  read_greeting_end :
      (fuel : ℕ) (buffer : List ℕ) (g : Greeting) (w : World m)
      → is_greeted buffer ≡ true
      → read_greeting net (suc fuel) socket buffer g w ≡ some (some g, w)
  unfolding read_greeting
  read_greeting_end fuel buffer g w e = rw (e, read_greeting) refl

  read_greeting_step :
      (fuel : ℕ) (buffer bytes : List ℕ) (g g' : Greeting) (w : World m)
      → is_greeted buffer ≡ false
      → save_message buffer g ≡ some g'
      → (net.read socket w.outside).0 ≡ some bytes
      → read_greeting net (suc fuel) socket buffer g w
        ≡ read_greeting net fuel socket
            (take 4095 bytes)
            g'
            (record w { outside = (net.read socket w.outside).1 })
  unfolding read_greeting read_buffer
  read_greeting_step fuel buffer bytes g g' w e saved r = rw (e, saved, r, read_greeting) refl

  -- The greeting is read, and nothing is written.
  abbrev pub Greeted : World m → Option Greeting → World m → Type 0
  Greeted w r v = (g : Greeting) × (r ≡ some g) × (v.replies ≡ w.replies)

  pub read_greeting-Greeted :
      (n fuel before : ℕ) (buffer : List ℕ) (g : Greeting) (w : World m)
      → is_greeted buffer ≡ false
      → Holds g (length (c_string buffer)) before
      → before < 1024
      → Greets n before w.outside
      → n + 1 < fuel
      → Returned (read_greeting net fuel socket buffer g w) (Greeted w)
  read_greeting-Greeted n zero before buffer g w e fits room greets h = absurd (omega arith)
  read_greeting-Greeted n (suc zero) before buffer g w e fits room greets h = absurd (omega arith)
  read_greeting-Greeted zero (suc (suc fuel)) before buffer g w e fits room (bytes, r, last) h =
      let (g', saved, less) = save_message-Holds buffer g before fits room in
      rw
        (
          read_greeting_step (suc fuel) buffer bytes g g' w e saved r,
          read_greeting_end fuel (take 4095 bytes) g' _ last,
        )
        (_, refl, refl)
  read_greeting-Greeted (suc n) (suc (suc fuel)) before buffer g w e fits room
        (bytes, r, other, room', more) h =
      let (g', saved, less) = save_message-Holds buffer g before fits room in
      rw (read_greeting_step (suc fuel) buffer bytes g g' w e saved r) (
        read_greeting-Greeted n (suc fuel) _ (take 4095 bytes) g' _ other
          (omega (arith, less.0), omega (arith, less.1)) room' more (omega arith))
