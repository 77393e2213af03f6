-- ===== src/Timing/Fade.antt =====
-- What fade shows: the number of colours, the last one, and the time that it takes.
use plasma_trim_cli.Base.{
  ℕ, suc, ◌+◌, ◌-◌, ◌*◌, ◌≤◌, ◌<◌, ◌≡◌, refl, sym, ap, ◌∙◌, ◌≢◌, true, List, [], ◌∷◌, ◌++◌, arith,
  length, get_or, replicate, tabulate, All, length-append, get_or-append_here, length-tabulate,
  get_or-tabulate, c_string,
}
use mathlib.Core.Path.{subst}
use native.Mathlib.Nat.{suc-mul}
use plasma_trim_cli.Hex.{byte_value}
use plasma_trim_cli.Color.{make_color, print_color}
use plasma_trim_cli.Color.Squeeze.{squeeze}
use plasma_trim_cli.Color.Format.{digit_source, IsColor, make_color-IsColor}
use plasma_trim_cli.Color.Digits.{
  digits_text, length-digits_text, digits_text-IsPlain, All-nonzero, squeeze_plain,
}
use plasma_trim_cli.Color.RoundTrip.{color_bytes, print_color-table}
use plasma_trim_cli.Machine.{Machine, World, delay}
use plasma_trim_cli.Machine.Laws.{Returned, Returned->>=, Returned_map, IsResponsive, IsSent}
use plasma_trim_cli.Device.{command, query, get_color, set_color, color_report}
use plasma_trim_cli.Device.Laws.{query-IsSent, send_command-IsSent}
use plasma_trim_cli.Timing.{fade_pace, color_table, show_rows, fade}

-- The reports of setColor for rows of colours, the last one first.
abbrev pub shown_rows : ℕ → ℕ → List (List ℕ) → List (ℕ × List ℕ) → List (ℕ × List ℕ)
shown_rows handle brightness [] before = before
shown_rows handle brightness (row ∷ rows) before =
    shown_rows handle brightness rows ((handle, color_report row brightness) ∷ before)

pace_positive : (time : List ℕ) → 1 ≤ (fade_pace time).0
unfolding fade_pace
pace_positive time = ground arith

-- The digits of any report are a text that makeColor converts.
pub converted :
    (cmd : List ℕ)
    → IsColor true (digits_text true (color_bytes cmd)) (make_color (print_color cmd) true)
converted cmd =
    let text = digits_text true (color_bytes cmd) in
    let plain = digits_text-IsPlain true (color_bytes cmd) in
    rw (print_color-table cmd) (
      subst (λ t. IsColor true t (make_color (text ++ (0 ∷ [])) true)) (squeeze_plain text plain)
        (make_color-IsColor true text [] (All-nonzero text plain)
          (omega (arith, length-digits_text true (color_bytes cmd)))
          (omega (
            arith,
            ap length (squeeze_plain text plain),
            length-digits_text true (color_bytes cmd),
          ))))

-- The rows in front of the last one.
abbrev between : (ℕ → ℕ → ℕ → ℕ → ℕ) → List ℕ → List ℕ → ℕ → List (List ℕ)
between shade orig new steps =
    tabulate (steps - 1) 0
      (λ i. tabulate 24 0 (λ j. shade (get_or orig j 0) (get_or new j 0) steps i))

length-color_table :
    (shade : ℕ → ℕ → ℕ → ℕ → ℕ) (orig new : List ℕ) (steps : ℕ)
    → 1 ≤ steps
    → length (color_table shade orig new steps) ≡ steps
unfolding color_table
length-color_table shade orig new steps h = omega (
  arith,
  length-append (between shade orig new steps) (tabulate 24 0 (λ j. get_or new j 0) ∷ []),
  length-tabulate (steps - 1) 0
      (λ i. tabulate 24 0 (λ j. shade (get_or orig j 0) (get_or new j 0) steps i)),
)

last-color_table :
    (shade : ℕ → ℕ → ℕ → ℕ → ℕ) (orig new : List ℕ) (steps : ℕ)
    → get_or (color_table shade orig new steps) (steps - 1) [] ≡ tabulate 24 0 (λ j. get_or new j 0)
unfolding color_table
last-color_table shade orig new steps =
    get_or-append_here (between shade orig new steps) [] _ [] (steps - 1)
      (sym (length-tabulate (steps - 1) 0 _))

later : {s t : ℕ} (u n d : ℕ) → u + d + n * d ≤ t → s ≤ u → s + suc n * d ≤ t
later u n d h k = omega (arith, suc-mul n d)

module _ {m : Machine} (responsive : IsResponsive m) where
  -- A colour that is asked for is the digits of some report.
  pub get_color-print_color :
      (handle : ℕ) (w : World m)
      → Returned
          (get_color handle w)
          (λ shown v. (cmd : List ℕ) × (shown ≡ print_color cmd) × IsSent handle (command 0x01) w v)
  unfolding get_color
  get_color-print_color handle w =
      Returned->>= (query handle (command 0x01)) _ w (λ _ v. IsSent handle (command 0x01) w v) _
        (query-IsSent responsive handle (command 0x01) w) (λ cmd v s. (cmd, refl, s))

  pub show_rows-shown :
      (handle delay_time brightness : ℕ) (rows : List (List ℕ)) (w : World m)
      → Returned (show_rows handle rows delay_time brightness w) (λ _ v.
        (v.sent ≡ shown_rows handle brightness rows w.sent)
        × (w.slept + length rows * delay_time ≤ v.slept))
  unfolding show_rows delay set_color
  show_rows-shown handle delay_time brightness [] w = (refl, omega arith)
  show_rows-shown handle delay_time brightness (row ∷ rows) w =
      Returned->>= (set_color handle row brightness) _ w
        (λ _ v. IsSent handle (color_report row brightness) w v) _
        (send_command-IsSent responsive handle (color_report row brightness) w)
        (λ _ v s.
          let v' = record v { slept = v.slept + delay_time } in
          Returned_map (show_rows handle rows delay_time brightness v') _ _
            (show_rows-shown handle delay_time brightness rows v')
            (λ _ x (es, et).
              (rw (es, s.sent) refl, later (v.slept) (length rows) delay_time et s.slept)))

  -- A call of fade: what it shows, and how long it takes at least.
  pub record IsFaded (handle brightness : ℕ) (text : List ℕ) (pace : ℕ × ℕ) (w v : World m)
      : Type 0 where
    pub rows : List (List ℕ)
    pub counted : length rows ≡ pace.0
    pub last :
        (k : ℕ)
        → k < 24
        → get_or (get_or rows (pace.0 - 1) []) k 0
          ≡ byte_value
              (get_or text (digit_source true (length text) (k * 2)) 0)
              (get_or text (digit_source true (length text) (k * 2 + 1)) 0)
    pub sent : v.sent ≡ shown_rows handle brightness rows ((handle, 0x01 ∷ replicate 31 0) ∷ w.sent)
    pub slept : w.slept + pace.0 * pace.1 ≤ v.slept

  -- fade to a colour of 3 to 255 characters, 3 of them no spaces, comes back if the devices answer,
  -- whatever the arithmetic on `double` brings: after it has asked for the colour that is shown, it
  -- shows as many colours as the time names, the last of them the new one, and waits after each.
  pub fade-IsFaded :
      (shade : ℕ → ℕ → ℕ → ℕ → ℕ) (handle brightness : ℕ) (text tail time : List ℕ) (w : World m)
      → All (λ c. c ≢ 0) text
      → length text < 256
      → 3 ≤ length (squeeze text)
      → Returned
          (fade shade handle (text ++ (0 ∷ tail)) time brightness w)
          (λ _ v. IsFaded handle brightness (squeeze text) (fade_pace (c_string time)) w v)
  unfolding fade
  fade-IsFaded shade handle brightness text tail time w nonzero short three =
      let new = make_color-IsColor true text tail nonzero short three in
      let pace = fade_pace (c_string time) in
      Returned->>= (get_color handle) _ w _ _ (get_color-print_color handle w)
        (λ shown v (cmd, es, s).
          let orig = converted cmd in
          let rows = color_table shade orig.buf new.buf pace.0 in
          let counted = length-color_table shade orig.buf new.buf pace.0 (pace_positive _) in
          let taken : length rows * pace.1 ≡ pace.0 * pace.1 = ap (λ t. t * pace.1) counted in
          rw (es, orig.returns, new.returns)
            (Returned_map (show_rows handle rows pace.1 brightness v) _ _
              (show_rows-shown handle pace.1 brightness rows v)
              (λ _ x (ex, et). record {
                rows = rows;
                counted = counted;
                last = λ k hk. rw (last-color_table shade orig.buf new.buf pace.0) (
                    get_or-tabulate 24 0 k (λ j. get_or new.buf j 0) 0 hk
                    ∙ ap (λ j. get_or new.buf j 0) (let e : 0 + k ≡ k = omega arith in e)
                    ∙ new.bytes k (omega arith));
                sent = rw (ex, s.sent) refl;
                slept = omega (arith, et, taken, s.slept);
              })))
