-- ===== src/Server/Dialogue.antt =====
-- A command on its way from the client to the server: manageConnection reads the lines that the client
-- writes.
use plasma_trim_cli.Base.{
  ℕ, zero, suc, ◌+◌, ◌-◌, ◌<◌, ◌≡◌, refl, ap, ◌∙◌, ◌≢◌, true, false, Option, some, List, [], ◌∷◌,
  ◌++◌, map, append_assoc, arith, length, set, take, replicate, All, length-append, length-set,
  take_short, codes, c_string,
}
use plasma_trim_cli.Machine.{Machine, World}
use plasma_trim_cli.Machine.Laws.{Returned, Returned_map}
use plasma_trim_cli.Color.Format.{c_string_lem}
use plasma_trim_cli.Sequence.{crlf}
use plasma_trim_cli.Files.{Disk}
use plasma_trim_cli.Net.{Net, arrived, receive_within}
use plasma_trim_cli.Client.{arguments, is_transfer, send_arguments}
use plasma_trim_cli.Client.Speech.{terminated, writes, spoken, send_arguments-spoken}
use plasma_trim_cli.Server.Session.{
  Session, filled, take_command, ends_command, took_line, read_commands,
}

-- Each write arrives as one read, within the time limit.
abbrev pub Delivers : {m : Machine} → Net m → ℕ → List (List ℕ) → m.Outside → Type 0
Delivers net socket [] o = Unit
Delivers net socket (bytes ∷ more) o =
    ((net.receive socket 300 o).0 ≡ arrived bytes)
    × Delivers net socket more (net.receive socket 300 o).1

-- A line of a command: printable, not empty, and neither an end nor a sign of life.
abbrev pub IsLine : List ℕ → Type 0
IsLine [] = ⊥
IsLine (c ∷ cs) =
    (c ≢ b'!') × (c ≢ b'.') × All (λ a. (0x19 < a) × (a < 128)) (c ∷ cs) × (length cs < 962)

take_command_lem :
    (text behind : List ℕ)
    → All (λ a. (0x19 < a) × (a < 128)) text
    → take_command (text ++ (0 ∷ behind)) ≡ terminated text
unfolding take_command
take_command_lem [] behind h = refl
take_command_lem (c ∷ cs) behind h = ground (arith, take_command_lem cs behind h.1)

filled-terminated :
    (text : List ℕ)
    → length text < 963
    → filled (terminated text) ≡ text ++ (0 ∷ replicate (964 - length (terminated text)) 0)
filled-terminated text h =
    let whole =
      take_short {0} 963 (terminated text) (omega (arith, length-append {0} text (0 ∷ []))) in
    rw whole (append_assoc text (0 ∷ []) _)

nonzero : (text : List ℕ) → All (λ a. (0x19 < a) × (a < 128)) text → All (λ c. c ≢ 0) text
nonzero [] h = tt
nonzero (c ∷ cs) h = ((λ e. omega arith), nonzero cs h.1)

line_printable : (text : List ℕ) → IsLine text → All (λ a. (0x19 < a) × (a < 128)) text
line_printable [] h = tt
line_printable (c ∷ cs) h = h.2

-- A line that was read: what is stored, and that reading goes on.
line_read :
    (text : List ℕ)
    → IsLine text
    → (take_command (filled (terminated text)) ≡ terminated text)
      × (ends_command (filled (terminated text)) ≡ false)
line_read [] h = absurd h
line_read (c ∷ cs) h =
    rw (filled-terminated (c ∷ cs) (omega arith)) (
      take_command_lem (c ∷ cs) (replicate (964 - length (terminated (c ∷ cs))) 0) h.2,
      ground arith,
    )

-- `commands` behind a command.
abbrev store : ℕ → List (List ℕ) → List (List ℕ) → List (List ℕ)
store i [] commands = set commands i (0 ∷ [])
store i (text ∷ texts) commands = store (suc i) texts (set commands i (terminated text))

take-map-set :
    (i : ℕ) (commands : List (List ℕ)) (line : List ℕ)
    → i < length commands
    → take (suc i) (map c_string (set commands i line))
      ≡ take i (map c_string commands) ++ (c_string line ∷ [])
take-map-set i [] line h = elim h [ ]
take-map-set zero (x ∷ xs) line h = refl
take-map-set (suc i) (x ∷ xs) line h =
    ap (λ t. c_string x ∷ t) (take-map-set i xs line (omega arith))

take-store :
    (texts : List (List ℕ)) (i : ℕ) (commands : List (List ℕ))
    → All IsLine texts
    → i + length texts < length commands
    → take (suc (i + length texts)) (map c_string (store i texts commands))
      ≡ take i (map c_string commands) ++ (texts ++ ([] ∷ []))
unfolding c_string
take-store [] i commands lines h =
    let e : i + 0 ≡ i = omega arith in rw e (take-map-set i commands (0 ∷ []) (omega arith))
take-store (text ∷ texts) i commands lines h =
    let e : i + suc (length texts) ≡ suc i + length texts = omega arith in
    rw e (
      take-store texts (suc i) (set commands i (terminated text)) lines.1
        (omega (arith, length-set commands i (terminated text)))
      ∙ ap (λ t. t ++ (texts ++ ([] ∷ [])))
          (take-map-set i commands (terminated text) (omega arith))
      ∙ append_assoc (take i (map c_string commands)) (c_string (terminated text) ∷ []) _
      ∙ ap (λ t. take i (map c_string commands) ++ (t ∷ (texts ++ ([] ∷ []))))
          (c_string_lem text [] (nonzero text (line_printable text lines.0))))

-- An end of line is stored as an empty line.
empty_read : take_command (filled (terminated crlf)) ≡ 0 ∷ []
unfolding take_command
empty_read = refl

-- The lines are read, and nothing is sent.
abbrev Stored :
    {m : Machine} → ℕ → List (List ℕ) → Session → World m → Option Session → World m → Type 0
Stored i texts s w r v =
    (t : Session) × (r ≡ some t)
    × (t.commands ≡ store i texts s.commands)
    × (v.sent ≡ w.sent)
    × (v.replies ≡ w.replies)

module _ {m : Machine} (net : Net m) (socket : ℕ) where
  -- What the next read brings is stored.
  pub read_commands_step :
      (room i : ℕ) (s : Session) (w : World m) (bytes : List ℕ)
      → ends_command s.buffer ≡ false
      → (net.receive socket 300 w.outside).0 ≡ arrived bytes
      → read_commands net socket (suc room) i s w
        ≡ read_commands net socket room
            (suc i)
            (took_line i bytes s)
            (record w { outside = (net.receive socket 300 w.outside).1 })
  unfolding read_commands receive_within
  read_commands_step room i s w bytes going e = rw (going, e, read_commands) refl

  pub read_commands_end :
      (room i : ℕ) (s : Session) (w : World m)
      → ends_command s.buffer ≡ true
      → read_commands net socket room i s w ≡ some (some s, w)
  unfolding read_commands
  read_commands_end zero i s w e = refl
  read_commands_end (suc room) i s w e = rw (e, read_commands) refl

  read_commands-store :
      (texts : List (List ℕ)) (room i : ℕ) (s : Session) (w : World m)
      → All IsLine texts
      → length texts < room
      → ends_command s.buffer ≡ false
      → Delivers net socket (writes texts) w.outside
      → Returned (read_commands net socket room i s w) (Stored i texts s w)
  read_commands-store texts zero i s w lines h going delivers = absurd (omega arith)
  read_commands-store [] (suc room) i s w lines h going delivers =
      rw
        (
          read_commands_step room i s w _ going delivers.0,
          read_commands_end room (suc i) (took_line i (terminated crlf) s) _ refl,
        )
        (_, refl, ap (set s.commands i) empty_read, refl, refl)
  read_commands-store (text ∷ texts) (suc room) i s w lines h going delivers =
      let (stored, goes_on) = line_read text lines.0 in
      rw (read_commands_step room i s w _ going delivers.0) (
        let t = took_line i (terminated text) s in
        let u = record w { outside = (net.receive socket 300 w.outside).1 } in
        Returned_map (read_commands net socket room (suc i) t u) (Stored (suc i) texts t u) _
          (read_commands-store texts room (suc i) t u lines.1 (omega arith) goes_on delivers.1)
          (λ r v (t, er, ec, es, ep).
            (t, er, ec ∙ ap (λ l. store (suc i) texts (set s.commands i l)) stored, es, ep)))

-- The lines of a command as runCommand gets them: its first lines, and an empty one behind them.
abbrev pub Understood : {m : Machine} → List (List ℕ) → World m → Option Session → World m → Type 0
Understood texts w r v =
    (t : Session) × (r ≡ some t)
    × (take (suc (length texts)) (map c_string t.commands) ≡ texts ++ ([] ∷ []))
    × (v.sent ≡ w.sent)

module _ {client server : Machine} (disk : Disk client) (net : Net client) (lan : Net server) where
  -- What the client writes for a command but upload and download, the server understands: if its
  -- arguments, fewer than 1024, are printable, not empty, shorter than 963 characters and do not begin
  -- with '!' or '.', if each write arrives as one read within 5 minutes, and if the session has room for
  -- 1024 lines and a buffer that lets the reading begin, then manageConnection reads exactly these
  -- arguments into the first lines of `commands`, with an empty line behind them.
  pub send_arguments-read_commands :
      (fuel socket : ℕ) (argv : List (List ℕ)) (offset : ℕ) (w : World client) (fd : ℕ)
      (s : Session) (w' : World server)
      → let texts = arguments argv (4 - offset) (length argv) in
        is_transfer (codes "upload") (codes "full_upload") argv (5 - offset) ≡ false
        → is_transfer (codes "download") (codes "full_download") argv (5 - offset) ≡ false
        → All IsLine texts
        → length texts < 1024
        → length s.commands ≡ 1024
        → ends_command s.buffer ≡ false
        → Delivers lan fd (writes texts) w'.outside
        → Returned
            (send_arguments disk net fuel socket argv offset w)
            (λ _ v. v.replies ≡ spoken socket (writes texts) w.replies)
          × Returned (read_commands lan fd 1024 0 s w') (Understood texts w')
  send_arguments-read_commands fuel socket argv offset w fd s w' no_upload no_download lines few
        size going delivers =
      let texts = arguments argv (4 - offset) (length argv) in
      (
        send_arguments-spoken disk net fuel socket argv offset w no_upload no_download,
        Returned_map (read_commands lan fd 1024 0 s w') (Stored 0 texts s w') _
            (read_commands-store lan fd texts 1024 0 s w' lines few going delivers)
            (λ r v (t, er, ec, sent, replies). (
              t,
              er,
              (let e : 0 + length texts ≡ length texts = omega arith in
                  rw ec (rw e at (take-store texts 0 s.commands lines (omega arith)))),
              sent,
            )),
      )
