-- ===== src/Device/Name.antt =====
-- The name that setName sends and getName shows.
use plasma_trim_cli.Base.{
  ℕ, zero, suc, ◌+◌, ◌-◌, ◌≤◌, ◌<◌, ◌≡◌, refl, sym, ap, ap₂, ◌∙◌, ◌≢◌, inl, inr, true, false, List,
  [], ◌∷◌, ◌++◌, append-nil, append_assoc, arith, ltb, if◌then◌else◌, Bool-cases, length, get_or,
  set, take, drop, replicate, tabulate, All, length-append, get_or-append_left, get_or-append_here,
  set-append_here, take-append-drop, length-take, for_by, c_string,
}
use plasma_trim_cli.Color.Format.{c_string_lem}
use plasma_trim_cli.Device.{is_printable, name_round, name_report, print_name}

-- The printable characters of a text.
unfoldable pub printable : List ℕ → List ℕ
printable [] = []
printable (c ∷ cs) = if is_printable c then c ∷ printable cs else printable cs

pub length-printable : (s : List ℕ) → length (printable s) ≤ length s
unfolding printable
length-printable [] = omega arith
length-printable (c ∷ cs) = ground (arith, length-printable cs)

-- The report under way: the code, the characters so far, and zeros.
abbrev name_so_far : List ℕ → ℕ → List ℕ
name_so_far out pad = 0x08 ∷ (out ++ replicate pad 0)

name_so_far-set :
    (out : List ℕ) (pad k c : ℕ)
    → k ≡ suc (length out)
    → set (name_so_far out (suc pad)) k c ≡ name_so_far (out ++ (c ∷ [])) pad
name_so_far-set out pad k c e =
    set-append_here (0x08 ∷ out) (replicate pad 0) 0 c k e
    ∙ ap (λ t. 0x08 ∷ t) (sym (append_assoc out (c ∷ []) (replicate pad 0)))

name_round_kept :
    (name out : List ℕ) (c i offset pad : ℕ)
    → get_or name i 0 ≡ c
    → length out + offset ≡ i
    → is_printable c ≡ true
    → name_round name i (offset, name_so_far out (suc pad))
      ≡ (offset, name_so_far (out ++ (c ∷ [])) pad)
name_round_kept name out c i offset pad ec eo ep =
    rw ec (rw ep (ap (λ t. (offset, t)) (name_so_far-set out pad (i + 1 - offset) c (omega arith))))

name_round_skipped :
    (name cmd : List ℕ) (c i offset : ℕ)
    → get_or name i 0 ≡ c
    → is_printable c ≡ false
    → name_round name i (offset, cmd) ≡ (offset + 1, cmd)
name_round_skipped name cmd c i offset ec ep = rw ec (rw ep)

printable_kept :
    (c : ℕ) (cs : List ℕ) → is_printable c ≡ true → printable (c ∷ cs) ≡ c ∷ printable cs
unfolding printable
printable_kept c cs e = rw e

printable_skipped :
    (c : ℕ) (cs : List ℕ) → is_printable c ≡ false → printable (c ∷ cs) ≡ printable cs
unfolding printable
printable_skipped c cs e = rw e

name_loop :
    (todo seen tail out : List ℕ) (i offset pad : ℕ)
    → i ≡ length seen
    → length out + offset ≡ i
    → length todo ≤ pad
    → (for_by
        (length todo)
        i
        1
        (name_round (seen ++ (todo ++ tail)))
        (offset, name_so_far out pad)).1
      ≡ name_so_far (out ++ printable todo) (pad - length (printable todo))
unfolding for_by printable
name_loop [] seen tail out i offset pad ei eo fits =
    ap₂ name_so_far (sym (append-nil out)) (omega arith)
name_loop (c ∷ cs) seen tail out i offset zero ei eo fits = absurd (omega arith)
name_loop (c ∷ cs) seen tail out i offset (suc pad) ei eo fits =
    elim (Bool-cases (is_printable c)) [
      | inl e ↦
          from (name_round_kept name out c i offset pad here eo e)
          ∙ rw moved (
              name_loop cs (seen ++ (c ∷ [])) tail (out ++ (c ∷ [])) (i + 1) offset pad
                (omega (arith, length-append seen (c ∷ [])))
                (omega (arith, length-append out (c ∷ []))) (omega arith))
          ∙ ap₂ name_so_far
              (append_assoc out (c ∷ []) (printable cs)
                ∙ ap (λ t. out ++ t) (sym (printable_kept c cs e)))
              (pad_left (rw (printable_kept c cs e)))
      | inr e ↦
          from (name_round_skipped name (name_so_far out (suc pad)) c i offset here e)
          ∙ (rw moved (
              rw (printable_skipped c cs e) (
                name_loop cs (seen ++ (c ∷ [])) tail out (i + 1) (offset + 1) (suc pad)
                  (omega (arith, length-append seen (c ∷ []))) (omega arith) (omega arith))))
    ]
  where
    name : List ℕ
    name = seen ++ ((c ∷ cs) ++ tail)

    here : get_or name i 0 ≡ c
    here = get_or-append_here seen (cs ++ tail) c 0 i ei

    moved : name ≡ (seen ++ (c ∷ [])) ++ (cs ++ tail)
    moved = sym (append_assoc seen (c ∷ []) (cs ++ tail))

    pad_left :
        length (printable (c ∷ cs)) ≡ suc (length (printable cs))
        → pad - length (printable cs) ≡ suc pad - length (printable (c ∷ cs))
    pad_left h = omega arith

    from :
        {s : ℕ × List ℕ}
        → name_round name i (offset, name_so_far out (suc pad)) ≡ s
        → (for_by (suc (length cs)) i 1 (name_round name) (offset, name_so_far out (suc pad))).1
          ≡ (for_by (length cs) (i + 1) 1 (name_round name) s).1
    from h = ap (λ t. (for_by (length cs) (i + 1) 1 (name_round name) t).1) h

-- The name that a text stands for: its first 26 characters, less what is not printable.
abbrev pub device_name : List ℕ → List ℕ
device_name text = printable (take 26 text)

-- The report of setName holds the code, the name and zeros, and nothing of the text behind it.
pub name_report_lem :
    (text tail : List ℕ)
    → All (λ c. c ≢ 0) text
    → name_report (text ++ (0 ∷ tail))
      ≡ 0x08 ∷ (device_name text ++ replicate (31 - length (device_name text)) 0)
unfolding name_report
name_report_lem text tail nonzero =
    ap (λ n. (for_by n 0 1 (name_round name) (0, name_so_far [] 31)).1) rounds
    ∙ ap (λ t. (for_by (length (take 26 text)) 0 1 (name_round t) (0, name_so_far [] 31)).1) split
    ∙ name_loop (take 26 text) [] (drop 26 text ++ (0 ∷ tail)) [] 0 0 31 (omega arith) (omega arith)
        (omega (arith, length-take 26 text))
  where
    name : List ℕ
    name = text ++ (0 ∷ tail)

    rounds :
        (if ltb 26 (length (c_string name)) then 26 else length (c_string name))
        ≡ length (take 26 text)
    rounds = rw (c_string_lem text tail nonzero) (ground (arith, length-take 26 text))

    split : name ≡ take 26 text ++ (drop 26 text ++ (0 ∷ tail))
    split =
        ap (λ t. t ++ (0 ∷ tail)) (sym (take-append-drop 26 text))
        ∙ append_assoc (take 26 text) (drop 26 text) (0 ∷ tail)

print_name-table :
    (cmd : List ℕ) (stale : ℕ)
    → print_name cmd stale ≡ tabulate 26 0 (λ i. get_or cmd (i + 1) 0) ++ (stale ∷ [])
unfolding print_name
print_name-table cmd stale = refl

-- The text that an array holds, up to its first 0.
c_string-tabulate :
    (s : List ℕ) (n start : ℕ) (f : ℕ → ℕ) (ys : List ℕ)
    → All (λ c. c ≢ 0) s
    → length s < n
    → ((i : ℕ) → i < length s → f (start + i) ≡ get_or s i 0)
    → f (start + length s) ≡ 0
    → c_string (tabulate n start f ++ ys) ≡ s
unfolding c_string
c_string-tabulate s zero start f ys h lt same stop = absurd (omega arith)
c_string-tabulate [] (suc n) start f ys h lt same stop =
    let e : f start ≡ 0 = ap f (omega arith) ∙ stop in rw e
c_string-tabulate (c ∷ cs) (suc n) start f ys h lt same stop =
    let e : f start ≡ c = ap f (omega arith) ∙ same 0 (omega arith) in
    rw e (
      ground (
        arith,
        h.0,
        c_string-tabulate cs n (suc start) f ys h.1 (omega arith)
            (λ i p. ap f (omega arith) ∙ same (suc i) (omega arith)) (ap f (omega arith) ∙ stop),
      ))

device_name_nonzero : (s : List ℕ) → All (λ c. c ≢ 0) (printable s)
unfolding printable
device_name_nonzero [] = tt
device_name_nonzero (c ∷ cs) = ground (arith, device_name_nonzero cs)

-- A report that holds a name shorter than 26 characters, with a 0 behind it, is read as that name.
print_name-c_string :
    (code : ℕ) (name behind : List ℕ) (stale : ℕ)
    → All (λ c. c ≢ 0) name
    → length name < 26
    → c_string (print_name (code ∷ (name ++ (0 ∷ behind))) stale) ≡ name
print_name-c_string code name behind stale nonzero short =
    let cmd : List ℕ = code ∷ (name ++ (0 ∷ behind)) in
    rw (print_name-table cmd stale) (
      c_string-tabulate name 26 0 (λ i. get_or cmd (i + 1) 0) (stale ∷ []) nonzero short
        (λ i p. ap (λ t. get_or cmd t 0) (plus_one i) ∙ get_or-append_left name (0 ∷ behind) i 0 p)
        (ap (λ t. get_or cmd t 0) (plus_one (length name))
          ∙ get_or-append_here name behind 0 0 (length name) refl))
  where
    plus_one : (i : ℕ) → 0 + i + 1 ≡ suc i
    plus_one i = omega arith

replicate_pos : (n : ℕ) → 0 < n → replicate {A = ℕ} n 0 ≡ 0 ∷ replicate (n - 1) 0
replicate_pos zero h = absurd (omega arith)
replicate_pos (suc n) h = ap (λ t. 0 ∷ replicate t 0) (omega arith)

-- A device that hands back the bytes of setName behind any code makes getName show the name: the
-- printable ones of the first 26 characters, if these are fewer than 26.
pub print_name-name_report :
    (text tail : List ℕ) (code stale : ℕ)
    → All (λ c. c ≢ 0) text
    → length (device_name text) < 26
    → c_string (print_name (set (name_report (text ++ (0 ∷ tail))) 0 code) stale) ≡ device_name text
print_name-name_report text tail code stale nonzero short = rw (name_report_lem text tail nonzero) (
    rw (replicate_pos (31 - length (device_name text)) (omega arith)) (
      print_name-c_string code (device_name text) _ stale (device_name_nonzero (take 26 text))
        short))
