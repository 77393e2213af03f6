-- ===== src/Client/Visit.antt =====
-- main of src/ptrim-client.cc, from the connection to the exit code, for a command that is not a
-- transfer of a file.
use plasma_trim_cli.Base.{
  ℤ, pos, negsuc, ℕ, zero, suc, ◌+◌, ◌-◌, ◌≤◌, ◌<◌, ◌≡◌, refl, sym, ap, ◌∙◌, inl, Bool, true, false,
  Option, none, some, List, [], ◌∷◌, ◌++◌, arith, ltb, ◌==◌, if◌then◌else◌, lt→ltb, length, take,
  replicate, take_short, codes, c_string, same_text,
}
use plasma_trim_cli.Machine.{Machine, World, send, delay, printf}
use plasma_trim_cli.Machine.Laws.{Returned, Returned->>=, Returned_map}
use mathlib.Core.Path.{subst}
use plasma_trim_cli.Decimal.{atoi}
use plasma_trim_cli.Sequence.{crlf}
use plasma_trim_cli.Files.{Disk}
use plasma_trim_cli.Net.{Net, connect_at, close_socket}
use plasma_trim_cli.Client.{
  Flow, next, Call, ClientRequest, version, help, connect, port_number, text_at, read_call,
  Greeting, is_greeted, is_transfer, arguments, show_read, read_buffer, read_greeting, show_answer,
  after_greeting, leave, talk, client_main,
}
use plasma_trim_cli.Client.Welcome.{Greets, read_greeting-Greeted}
use plasma_trim_cli.Client.Speech.{writes, spoken, spoken-append, send_arguments-ends}

module _ {m : Machine} (net : Net m) (socket : ℕ) where
  -- A read does not fail.
  abbrev pub Reads : Type 0
  Reads = (o : m.Outside) → (bytes : List ℕ) × ((net.read socket o).0 ≡ some bytes)

  show_answer-next :
      (w : World m)
      → Reads
      → Returned (show_answer net socket w) (λ r v. (r ≡ next) × (v.replies ≡ w.replies))
  unfolding show_answer read_buffer show_read printf
  show_answer-next w reads = let (bytes, e) = reads w.outside in rw e (refl, refl)

-- What a client says from its first word to its last.
abbrev pub visit : List (List ℕ) → ℕ → List (List ℕ)
visit argv offset =
    text_at argv (3 - offset)
    ∷ (writes (arguments argv (4 - offset) (length argv)) ++ ((codes "!" ++ crlf) ∷ []))

-- The buffer before the first read.
blank : (is_greeted (replicate 4096 0) ≡ false) × (c_string (replicate 4096 0) ≡ [])
unfolding same_text c_string
blank = (refl, refl)

module _ {m : Machine} (disk : Disk m) (net : Net m) (socket : ℕ) (reads : Reads net socket) where
  -- What is written for a command.
  abbrev Commanded : List (List ℕ) → ℕ → World m → Flow → World m → Type 0
  Commanded argv offset w r v =
      (r ≡ next)
      × (v.replies ≡ spoken socket (writes (arguments argv (4 - offset) (length argv))) w.replies)

  after_greeting-Commanded :
      (fuel : ℕ) (argv : List (List ℕ)) (offset : ℕ) (g : Greeting) (w : World m)
      → 5 < length argv + offset
      → is_transfer (codes "upload") (codes "full_upload") argv (5 - offset) ≡ false
      → is_transfer (codes "download") (codes "full_download") argv (5 - offset) ≡ false
      → Returned (after_greeting disk net fuel socket argv offset g w) (Commanded argv offset w)
  unfolding after_greeting
  after_greeting-Commanded fuel argv offset g w enough no_upload no_download =
      let four : length argv + offset == 4 ≡ false = ground arith in
      let five : length argv + offset == 5 ≡ false = ground arith in
      rw (four, five)
        (send_arguments-ends disk net fuel socket argv offset w (λ r. r ≡ next)
          (λ v. show_answer-next net socket v reads) no_upload no_download)

  leave-spoken :
      (w : World m)
      → Returned
          (leave disk net socket w)
          (λ code v. (code ≡ 0) × (v.replies ≡ (socket, codes "!" ++ crlf) ∷ w.replies))
  unfolding leave send delay close_socket
  leave-spoken w = (refl, refl)

  talk-spoken :
      (n fuel : ℕ) (argv : List (List ℕ)) (offset : ℕ) (w : World m)
      → Greets net socket n 0 w.outside
      → n + 1 < fuel
      → offset ≤ 1
      → 5 < length argv + offset
      → is_transfer (codes "upload") (codes "full_upload") argv (5 - offset) ≡ false
      → is_transfer (codes "download") (codes "full_download") argv (5 - offset) ≡ false
      → Returned
          (talk disk net fuel argv offset socket w)
          (λ code v. (code ≡ 0) × (v.replies ≡ spoken socket (visit argv offset) w.replies))
  unfolding talk send delay
  talk-spoken n fuel argv offset w greets h one enough no_upload no_download =
      let coded : ltb (3 - offset) (length argv) ≡ true =
        lt→ltb (3 - offset) (length argv) (omega arith) in
      let code = text_at argv (3 - offset) in
      let whole : take (length code) code ≡ code =
        take_short {0} (length code) code (omega arith) in
      let texts = arguments argv (4 - offset) (length argv) in
      rw coded (
        Returned->>= (read_greeting net fuel socket (replicate 4096 0) _) _ _ _ _
          (read_greeting-Greeted net socket n fuel 0 (replicate 4096 0) _ _ blank.0
            (rw blank.1 (omega arith, omega arith)) (omega arith) greets h)
          (λ r v (g, er, said). rw er (
            Returned->>= (after_greeting disk net fuel socket argv offset g) _ v _ _
              (after_greeting-Commanded fuel argv offset g v enough no_upload no_download)
              (λ flow x (ef, written). rw ef (
                Returned_map (leave disk net socket x) _ _ (leave-spoken x) (λ exit y (ec, left). (
                  ec,
                  left
                      ∙ ap (λ t. (socket, codes "!" ++ crlf) ∷ t)
                          (written
                            ∙ ap (spoken socket (writes texts))
                                (said ∙ ap (λ t. (socket, t) ∷ w.replies) whole))
                      ∙ sym (
                          spoken-append socket (writes texts) ((codes "!" ++ crlf) ∷ [])
                            ((socket, code) ∷ w.replies)),
                )))))))

port_number-le : (z : ℤ) → (port_number z).1 ≤ 1
port_number-le (pos zero) = omega arith
port_number-le (pos (suc n)) = omega arith
port_number-le (negsuc n) = omega arith

-- A call has at most one argument fewer than with a port.
IsNear : Option ClientRequest → Type 0
IsNear none = Unit
IsNear (some version) = Unit
IsNear (some help) = Unit
IsNear (some (connect call)) = call.offset ≤ 1

IsNear-if :
    (b : Bool) (x y : Option ClientRequest) → IsNear x → IsNear y → IsNear (if b then x else y)
IsNear-if true x y h k = h
IsNear-if false x y h k = k

-- A request without a call.
unanswered : IsNear none × IsNear (some version) × IsNear (some help)
unfolding IsNear
unanswered = (tt, tt, tt)

called : (call : Call) → call.offset ≤ 1 → IsNear (some (connect call))
unfolding IsNear
called call h = h

read_call-IsNear : (argv : List (List ℕ)) → IsNear (read_call argv)
unfolding read_call
read_call-IsNear argv = IsNear-if _ _ _ unanswered.0 (
    IsNear-if _ _ _ unanswered.1 (
      IsNear-if _ _ _ unanswered.2
        (IsNear-if _ _ _ unanswered.2 (called _ (port_number-le (atoi (text_at argv 2)))))))

offset-le :
    (argv : List (List ℕ)) (call : Call) → read_call argv ≡ some (connect call) → call.offset ≤ 1
unfolding IsNear
offset-le argv call e = subst IsNear e (read_call-IsNear argv)

module _ {m : Machine} (disk : Disk m) (net : Net m) where
  -- ptrim-client with a command that is not a transfer of a file: if it can connect, no read fails, and
  -- the server greets it after n reads of something else, which bring fewer than 1024 characters
  -- altogether, then with enough fuel for these reads it ends with exit code 0, and it has written, in
  -- this order, the security code, each argument of the command with a terminator, an empty line, and
  -- "!" to take its leave.
  pub client_main-spoken :
      (columns fuel n socket : ℕ) (argv : List (List ℕ)) (call : Call) (w : World m)
      → read_call argv ≡ some (connect call)
      → (net.connect_to call.host call.port w.outside).0 ≡ inl socket
      → Reads net socket
      → Greets net socket n 0 (net.connect_to call.host call.port w.outside).1
      → n + 1 < fuel
      → 5 < length argv + call.offset
      → is_transfer (codes "upload") (codes "full_upload") argv (5 - call.offset) ≡ false
      → is_transfer (codes "download") (codes "full_download") argv (5 - call.offset) ≡ false
      → Returned
          (client_main disk net columns fuel argv w)
          (λ code v. (code ≡ 0) × (v.replies ≡ spoken socket (visit argv call.offset) w.replies))
  unfolding client_main connect_at
  client_main-spoken columns fuel n socket argv call w e connected reads greets h enough no_upload
        no_download =
      rw (client_main, e, connect_at, connected)
        (talk-spoken disk net socket reads n fuel argv call.offset _ greets h
          (offset-le argv call e) enough no_upload no_download)
