-- ===== src/Text/Print.antt =====
-- format_print and the texts of --help on a terminal that is wide enough.
use plasma_trim_cli.Base.{
  ℕ, suc, ◌-◌, ◌*◌, ◌<◌, ◌≡◌, refl, ◌∙◌, false, List, [], ◌∷◌, ◌++◌, arith, ◌==◌, if◌then◌else◌,
  ge→ltb, length, All,
}
use plasma_trim_cli.Machine.{Machine, World, printf}
use plasma_trim_cli.Machine.Laws.{Returned, Returned->>=, Returned_map}
use plasma_trim_cli.Text.{layout, format_print, print_all}
use plasma_trim_cli.Text.Wrap.{join, IsLine, break_lines-IsWrapped}

-- What is on stdout: the lines of the text with their indentation, or one empty line; no device is
-- written to.
pub record IsPrinted {m : Machine} (columns tab : ℕ) (string : List ℕ) (w v : World m)
    : Type 0 where
  pub lines : List (List ℕ)
  pub whole : join lines ≡ string
  pub fits : All (IsLine (columns - tab * 3)) lines
  pub stdout :
      v.stdout ≡ w.stdout ++ (if length string == 0 then 13 ∷ 10 ∷ [] else layout tab lines)
  pub sent : v.sent ≡ w.sent

module _ {m : Machine} where
  -- format_print ends if there is room for one character behind the indentation. It prints the lines
  -- of the text, which put together are the text, none longer than the room; an empty text is an empty
  -- line.
  pub format_print-IsPrinted :
      (columns tab : ℕ) (string : List ℕ) (w : World m)
      → tab * 3 < columns
      → Returned (format_print columns tab string w) (λ _ v. IsPrinted columns tab string w v)
  unfolding format_print printf
  format_print-IsPrinted columns tab [] w room = record {
    lines = [];
    whole = refl;
    fits = tt;
    stdout = refl;
    sent = refl;
  }
  format_print-IsPrinted columns tab (c ∷ cs) w room =
      let wrapped =
        break_lines-IsWrapped (suc (length (c ∷ cs))) (columns - tab * 3) (c ∷ cs) (omega arith)
          (omega arith) in
      let some_text : (length (c ∷ cs) == 0) ≡ false = ground arith in
      rw (some_text, ge→ltb columns (tab * 3) (omega arith), wrapped.returns)
        (record {
          lines = wrapped.lines;
          whole = wrapped.whole;
          fits = wrapped.fits;
          stdout = rw some_text refl;
          sent = refl;
        })

  pub print_all-sent :
      (columns : ℕ) (texts : List (ℕ × List ℕ)) (w : World m)
      → All (λ t. t.0 * 3 < columns) texts
      → Returned (print_all columns texts w) (λ _ v. v.sent ≡ w.sent)
  unfolding print_all
  print_all-sent columns [] w h = refl
  print_all-sent columns ((tab, string) ∷ texts) w h =
      Returned->>= (format_print columns tab string) _ w _ _
        (format_print-IsPrinted columns tab string w h.0)
        (λ _ v p.
          Returned_map (print_all columns texts v) _ _ (print_all-sent columns texts v h.1)
            (λ _ x e. e ∙ p.sent))
