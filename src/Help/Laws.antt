-- ===== src/Help/Laws.antt =====
-- The texts of --help fit every terminal of 7 columns.
use plasma_trim_cli.Base.{
  ℕ, ◌*◌, ◌≤◌, ◌<◌, ◌≡◌, refl, ◌∙◌, Bool, true, ◌&&◌, List, [], ◌∷◌, arith, ltb, All,
}
use plasma_trim_cli.Machine.{Machine, World, M, ◌>>◌}
use plasma_trim_cli.Machine.Laws.{Returned, Returned->>=, Returned_map}
use plasma_trim_cli.Text.{
  format_print, ptrim_lib_version, ptrim_version, ptrim_client_version, ptrim_server_version,
}
use plasma_trim_cli.Text.Print.{format_print-IsPrinted, print_all-sent}
use plasma_trim_cli.Help.{ptrim_help, client_help, server_help}
use plasma_trim_cli.Help.Ptrim.{ptrim_texts}
use plasma_trim_cli.Help.Client.{client_texts}
use plasma_trim_cli.Help.Server.{server_texts}

-- No text is indented by more than two steps.
abbrev shallow : List (ℕ × List ℕ) → Bool
shallow [] = true
shallow ((tab, string) ∷ texts) = ltb tab 3 && shallow texts

fits :
    (columns : ℕ) (texts : List (ℕ × List ℕ))
    → 7 ≤ columns
    → shallow texts ≡ true
    → All (λ t. t.0 * 3 < columns) texts
fits columns [] h e = tt
fits columns ((tab, string) ∷ texts) h e =
    (ground (arith, h, e), fits columns texts h (ground arith))

module _ {m : Machine} (columns : ℕ) (wide : 7 ≤ columns) where
  -- It comes back, and no device is written to.
  abbrev Prints : M m (Unit {0}) → Type 0
  Prints f = (w : World m) → Returned (f w) (λ _ v. v.sent ≡ w.sent)

  Prints-then : (f g : M m (Unit {0})) → Prints f → Prints g → Prints (f >> g)
  Prints-then f g h k w =
      Returned->>= f (λ _. g) w (λ _ v. v.sent ≡ w.sent) _ (h w)
        (λ _ v e. Returned_map (g v) _ _ (k v) (λ _ x e'. e' ∙ e))

  Prints-text : (tab : ℕ) (string : List ℕ) → tab < 3 → Prints (format_print columns tab string)
  Prints-text tab string small w =
      Returned_map (format_print columns tab string w) _ _
        (format_print-IsPrinted columns tab string w (omega (arith, wide, small))) (λ _ v p. p.sent)

  Prints-version : Prints (ptrim_lib_version columns)
  unfolding ptrim_lib_version
  Prints-version =
      Prints-then _ _ (Prints-text 0 _ (omega arith))
        (Prints-then _ _ (Prints-text 0 _ (omega arith)) (Prints-text 1 _ (omega arith)))

  -- On a terminal of at least 7 columns the help of each of the three programs is printed to its end,
  -- and no device is written to.
  pub help-sent :
      (w : World m)
      → Returned (ptrim_help columns w) (λ _ v. v.sent ≡ w.sent)
        × Returned (client_help columns w) (λ _ v. v.sent ≡ w.sent)
        × Returned (server_help columns w) (λ _ v. v.sent ≡ w.sent)
  unfolding ptrim_help client_help server_help ptrim_version ptrim_client_version
      ptrim_server_version ptrim_texts client_texts server_texts
  help-sent w = (
    Prints-then _ _ Prints-version
        (Prints-then _ _ (Prints-text 1 _ (omega arith))
          (λ v. print_all-sent columns ptrim_texts v (fits columns ptrim_texts wide refl)))
        w,
    Prints-then _ _ Prints-version
        (Prints-then _ _ (Prints-text 1 _ (omega arith))
          (λ v. print_all-sent columns client_texts v (fits columns client_texts wide refl)))
        w,
    Prints-then _ _ Prints-version
        (Prints-then _ _ (Prints-text 1 _ (omega arith))
          (λ v. print_all-sent columns server_texts v (fits columns server_texts wide refl)))
        w,
  )
