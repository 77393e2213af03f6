-- ===== src/Timing.antt =====
-- hold and fade of src/ptrim-lib.cc: the times that a slot stays and changes.
pub mod Laws
pub mod Fade
use plasma_trim_cli.Base.{
  ℕ, ◌-◌, true, ◌||◌, List, [], ◌∷◌, ◌++◌, if◌then◌else◌, get_or, tabulate, codes, c_string,
  same_text,
}
use plasma_trim_cli.Color.{make_color}
use plasma_trim_cli.Machine.{Machine, M, ◌>>=◌, ◌>>◌, pure, or_stuck, delay}
use plasma_trim_cli.Device.{get_color, set_color}

-- The milliseconds of hold, by the text of the time.
unfoldable pub hold_time : List ℕ → ℕ
hold_time time =
    if same_text time (codes "0")
    then 0
    else if same_text time (codes "1")
    then 100
    else if same_text time (codes "2")
    then 250
    else if same_text time (codes "3")
    then 500
    else if same_text time (codes "4")
    then 1000
    else if same_text time (codes "5")
    then 2500
    else if same_text time (codes "6")
    then 5000
    else if same_text time (codes "7")
    then 19000
    else if same_text time (codes "8")
    then 15000
    else if same_text time (codes "9")
    then 50000
    else if same_text time (codes "a") || same_text time (codes "A")
    then 60000
    else if same_text time (codes "b") || same_text time (codes "B")
    then 150000
    else if same_text time (codes "c") || same_text time (codes "C")
    then 500000
    else if same_text time (codes "d") || same_text time (codes "D")
    then 600000
    else if same_text time (codes "e") || same_text time (codes "E")
    then 90000
    else if same_text time (codes "f") || same_text time (codes "F")
    then 1800000
    else 0

-- `steps` and `delayTime` of fade.
unfoldable pub fade_pace : List ℕ → ℕ × ℕ
fade_pace time =
    if same_text time (codes "0")
    then (1, 0)
    else if same_text time (codes "1")
    then (10, 0)
    else if same_text time (codes "2")
    then (30, 0)
    else if same_text time (codes "3")
    then (61, 0)
    else if same_text time (codes "4")
    then (122, 0)
    else if same_text time (codes "5")
    then (255, 3)
    else if same_text time (codes "6")
    then (255, 11)
    else if same_text time (codes "7")
    then (255, 28)
    else if same_text time (codes "8")
    then (255, 50)
    else if same_text time (codes "9")
    then (255, 110)
    else if same_text time (codes "a") || same_text time (codes "A")
    then (255, 225)
    else if same_text time (codes "b") || same_text time (codes "B")
    then (255, 580)
    else if same_text time (codes "c") || same_text time (codes "C")
    then (255, 1200)
    else if same_text time (codes "d") || same_text time (codes "D")
    then (255, 2400)
    else if same_text time (codes "e") || same_text time (codes "E")
    then (255, 3600)
    else if same_text time (codes "f") || same_text time (codes "F")
    then (255, 7200)
    else (255, 0)

-- `colorTable`: the rows between the colours, and the new colour. `shade` is the arithmetic on
-- `double`: what `origColor[j] - (((double) (x - y) / steps) * (i + 1))` is as an `unsigned char`, for
-- x = origColor[j], y = newColor[j], steps and i.
unfoldable pub color_table : (ℕ → ℕ → ℕ → ℕ → ℕ) → List ℕ → List ℕ → ℕ → List (List ℕ)
color_table shade orig new steps =
    tabulate (steps - 1) 0
      (λ i. tabulate 24 0 (λ j. shade (get_or orig j 0) (get_or new j 0) steps i))
    ++ (tabulate 24 0 (λ j. get_or new j 0) ∷ [])

module _ {m : Machine} where
  unfoldable pub hold : List ℕ → M m (Unit {0})
  hold time = if same_text time (codes "0") then pure tt else delay (hold_time time)

  -- The last loop of fade.
  unfoldable pub show_rows : ℕ → List (List ℕ) → ℕ → ℕ → M m (Unit {0})
  show_rows handle [] delay_time brightness = pure tt
  show_rows handle (row ∷ rows) delay_time brightness = do
    set_color handle row brightness
    delay delay_time
    show_rows handle rows delay_time brightness

  unfoldable pub fade : (ℕ → ℕ → ℕ → ℕ → ℕ) → ℕ → List ℕ → List ℕ → ℕ → M m (Unit {0})
  fade shade handle user_color fade_time brightness = do
    shown ← get_color handle
    orig_color ← or_stuck (make_color shown true)
    new_color ← or_stuck (make_color user_color true)
    let pace = fade_pace (c_string fade_time)
    show_rows handle (color_table shade orig_color.0 new_color.0 pace.0) pace.1 brightness
