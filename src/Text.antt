-- ===== src/Text.antt =====
-- format_print of src/ptrim-lib.cc: a text in lines of the terminal's width, broken at spaces; and
-- the versions that it prints.
pub mod Wrap
pub mod Print
use plasma_trim_cli.Base.{
  ℕ, zero, suc, ◌-◌, ◌*◌, true, false, Option, none, some, List, [], ◌∷◌, ◌++◌, ltb, ◌==◌,
  if◌then◌else◌, length, get_or, take, drop, replicate, codes,
}
use plasma_trim_cli.Machine.{Machine, M, ◌>>=◌, ◌>>◌, pure, or_stuck, stuck, printf}

-- `while (string [i] != ' ' && i > offset) i--`, on `i - offset` and the text from `offset` on.
unfoldable pub last_space : List ℕ → ℕ → ℕ
last_space rest zero = 0
last_space rest (suc i) =
    let more = last_space rest i in if get_or rest (suc i) 0 == b' ' then suc i else more

-- `stop - offset`: where the line ends.
unfoldable pub line_length : ℕ → List ℕ → ℕ
line_length width rest =
    if ltb width (length rest)
    then (let i = last_space rest width in if i == 0 then width else i)
    else length rest

-- `while (offset < len)`, on the text from `offset` on.
unfoldable pub break_lines : ℕ → ℕ → List ℕ → Option (List (List ℕ))
break_lines zero width rest = none
break_lines (suc fuel) width rest = elim (ltb 0 (length rest)) [
  | false ↦ some []
  | true ↦ elim (break_lines fuel width (drop (line_length width rest) rest)) [
    | none ↦ none
    | some lines ↦ some (take (line_length width rest) rest ∷ lines)
  ]
]

-- The indentation of `tab` steps, a line, and its end.
abbrev pub indented : ℕ → List ℕ → List ℕ
indented tab line = replicate (tab * 3) b' ' ++ (line ++ (13 ∷ 10 ∷ []))

unfoldable pub layout : ℕ → List (List ℕ) → List ℕ
layout tab [] = []
layout tab (line ∷ lines) = indented tab line ++ layout tab lines

module _ {m : Machine} where
  -- `columns` is the width of the terminal. A text that is longer than a negative width has no line.
  unfoldable pub format_print : ℕ → ℕ → List ℕ → M m (Unit {0})
  format_print columns tab string =
      if length string == 0
      then printf (13 ∷ 10 ∷ [])
      else if ltb columns (tab * 3)
      then stuck
      else (or_stuck (break_lines (suc (length string)) (columns - tab * 3) string) >>= λ lines.
          printf (layout tab lines))

  unfoldable pub ptrim_lib_version : ℕ → M m (Unit {0})
  ptrim_lib_version columns = do
    format_print columns 0 (codes "PlsamaTrim Utilities by Cocide v0.3.1 - Nov 7 2012")
    format_print columns 0 (codes "Codename: \"Documentation is a must\"")
    format_print columns 1 (codes "ptrim-lib v0.2.3")

  unfoldable pub ptrim_version : ℕ → M m (Unit {0})
  ptrim_version columns = format_print columns 1 (codes "ptrim v0.2.3")

  unfoldable pub ptrim_client_version : ℕ → M m (Unit {0})
  ptrim_client_version columns = format_print columns 1 (codes "ptrim-client v0.1.1")

  unfoldable pub ptrim_server_version : ℕ → M m (Unit {0})
  ptrim_server_version columns = format_print columns 1 (codes "ptrim-server v0.1.1")

  -- Calls of format_print, one after the other.
  unfoldable pub print_all : ℕ → List (ℕ × List ℕ) → M m (Unit {0})
  print_all columns [] = pure tt
  print_all columns ((tab, string) ∷ texts) = do
    format_print columns tab string
    print_all columns texts
