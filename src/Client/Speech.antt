-- ===== src/Client/Speech.antt =====
-- What the client writes to its socket for a command.
use plasma_trim_cli.Base.{
  ℕ, suc, ◌+◌, ◌-◌, ◌≡◌, refl, sym, ap, ◌∙◌, false, Option, none, some, List, [], ◌∷◌, ◌++◌, map,
  length, take, codes,
}
use plasma_trim_cli.Machine.{Machine, World, send, delay, printf, fprintf_stderr}
use plasma_trim_cli.Machine.Laws.{Returned, Returned->>=, Returned_map}
use plasma_trim_cli.Sequence.{crlf}
use plasma_trim_cli.Files.{Disk}
use plasma_trim_cli.Net.{Net}
use plasma_trim_cli.Client.{
  Flow, arguments, is_transfer, write_line, write_lines, read_buffer, show_read, show_answer,
  send_arguments,
}

abbrev pub terminated : List ℕ → List ℕ
terminated text = text ++ (0 ∷ [])

-- The writes of a command: its lines, each with a terminator, and an empty line.
abbrev pub writes : List (List ℕ) → List (List ℕ)
writes texts = map terminated texts ++ (terminated crlf ∷ [])

-- Writes to a socket behind those before, the last one first.
abbrev pub spoken : ℕ → List (List ℕ) → List (ℕ × List ℕ) → List (ℕ × List ℕ)
spoken socket [] before = before
spoken socket (text ∷ texts) before = spoken socket texts ((socket, text) ∷ before)

pub spoken-append :
    (socket : ℕ) (xs ys : List (List ℕ)) (before : List (ℕ × List ℕ))
    → spoken socket (xs ++ ys) before ≡ spoken socket ys (spoken socket xs before)
spoken-append socket [] ys before = refl
spoken-append socket (x ∷ xs) ys before = spoken-append socket xs ys ((socket, x) ∷ before)

take-terminated : (text : List ℕ) → take (suc (length text)) (terminated text) ≡ terminated text
take-terminated [] = refl
take-terminated (c ∷ cs) = ap (λ t. c ∷ t) (take-terminated cs)

module _ {m : Machine} where
  write_line-spoken :
      (socket : ℕ) (text : List ℕ) (w : World m)
      → Returned
          (write_line socket text w)
          (λ _ v. v.replies ≡ (socket, terminated text) ∷ w.replies)
  unfolding write_line send
  write_line-spoken socket text w = ap (λ t. (socket, t) ∷ w.replies) (take-terminated text)

  pub write_lines-spoken :
      (pause socket : ℕ) (texts : List (List ℕ)) (w : World m)
      → Returned
          (write_lines pause socket texts w)
          (λ _ v. v.replies ≡ spoken socket (map terminated texts) w.replies)
  unfolding write_lines delay
  write_lines-spoken pause socket [] w = refl
  write_lines-spoken pause socket (text ∷ texts) w =
      Returned->>= (write_line socket text) _ w _ _ (write_line-spoken socket text w) (λ _ v e.
        let u = record v { slept = v.slept + pause } in
        Returned_map (write_lines pause socket texts u) _ _
          (write_lines-spoken pause socket texts u)
          (λ _ x e'. e' ∙ ap (spoken socket (map terminated texts)) e))

module _ {m : Machine} (disk : Disk m) (net : Net m) where
  show_read-replies :
      (r : Option (List ℕ)) (w : World m) → Returned (show_read r w) (λ _ v. v.replies ≡ w.replies)
  unfolding show_read printf fprintf_stderr
  show_read-replies none w = refl
  show_read-replies (some buffer) w = refl

  show_answer-replies :
      (socket : ℕ) (w : World m)
      → Returned (show_answer net socket w) (λ _ v. v.replies ≡ w.replies)
  unfolding show_answer read_buffer
  show_answer-replies socket w = show_read-replies _ _

  -- A command but upload and download: its arguments are written line by line, and it goes on as the
  -- answer says.
  pub send_arguments-ends :
      (fuel socket : ℕ) (argv : List (List ℕ)) (offset : ℕ) (w : World m) (P : Flow → Type 0)
      → ((v : World m) → Returned (show_answer net socket v) (λ r x. P r × (x.replies ≡ v.replies)))
      → is_transfer (codes "upload") (codes "full_upload") argv (5 - offset) ≡ false
      → is_transfer (codes "download") (codes "full_download") argv (5 - offset) ≡ false
      → Returned (send_arguments disk net fuel socket argv offset w) (λ r v.
        P r
        × (v.replies
            ≡ spoken socket (writes (arguments argv (4 - offset) (length argv))) w.replies))
  unfolding send_arguments send delay
  send_arguments-ends fuel socket argv offset w P answered no_upload no_download =
      let texts = arguments argv (4 - offset) (length argv) in
      rw (no_upload, no_download)
        (Returned->>= (write_lines 25 socket texts) _ w _ _ (write_lines-spoken 25 socket texts w)
          (λ _ v e. Returned_map (show_answer net socket _) _ _ (answered _) (λ _ x (p, e'). (
            p,
            e'
                ∙ ap (λ t. (socket, terminated crlf) ∷ t) e
                ∙ sym
                    (spoken-append socket (map terminated texts) (terminated crlf ∷ []) w.replies),
          ))))

  pub send_arguments-spoken :
      (fuel socket : ℕ) (argv : List (List ℕ)) (offset : ℕ) (w : World m)
      → is_transfer (codes "upload") (codes "full_upload") argv (5 - offset) ≡ false
      → is_transfer (codes "download") (codes "full_download") argv (5 - offset) ≡ false
      → Returned (send_arguments disk net fuel socket argv offset w) (λ _ v.
        v.replies ≡ spoken socket (writes (arguments argv (4 - offset) (length argv))) w.replies)
  send_arguments-spoken fuel socket argv offset w no_upload no_download =
      Returned_map (send_arguments disk net fuel socket argv offset w) _ _
        (send_arguments-ends fuel socket argv offset w (λ _. Unit {0})
          (λ v.
            Returned_map (show_answer net socket v) _ _ (show_answer-replies socket v)
              (λ _ x e. (tt, e)))
          no_upload no_download)
        (λ _ v q. q.1)
