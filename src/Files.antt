-- ===== src/Files.antt =====
-- Files as upload, download, streamData and sendFile use them: fopen, fgets and fprintf of C, on the
-- outside of a machine.
pub mod Laws
pub mod Lines
use plasma_trim_cli.Base.{
  ℕ, zero, suc, Option, none, some, List, [], ◌∷◌, ◌==◌, if◌then◌else◌, length, codes, same_text,
}
use plasma_trim_cli.Machine.{Machine, World, M, pure, stuck, ◌>>=◌, ◌>>◌, printf}

-- `read_file` is what a file holds, or `none` if fopen (…, "r") fails. `write_file` puts a text where
-- fopen (…, "w+") may write, and is `none` if that fails. `stale_lines` is what the memory behind
-- `new char [lineSize]` happens to hold, for each line of `fileData`.
pub record Disk (m : Machine) : Type 0 where
  pub read_file : List ℕ → m.Outside → Option (List ℕ)
  pub read_stdin : m.Outside → List ℕ
  pub write_file : List ℕ → List ℕ → m.Outside → Option m.Outside
  pub stale_lines : m.Outside → List (List ℕ)

-- fgets: a line with its end, or at most `room` bytes, and what is behind them.
unfoldable pub take_line : ℕ → List ℕ → List ℕ × List ℕ
take_line zero bytes = ([], bytes)
take_line (suc room) [] = ([], [])
take_line (suc room) (c ∷ cs) =
    let more = take_line room cs in if c == 10 then (c ∷ [], cs) else (c ∷ more.0, more.1)

-- `while (fgets (line, size, file) != NULL)`, with `room` one less than `size`: all lines.
unfoldable pub lines_of : ℕ → ℕ → List ℕ → List (List ℕ)
unfolding take_line
lines_of zero room bytes = []
lines_of (suc fuel) room [] = []
lines_of (suc fuel) room (c ∷ cs) =
    let taken = take_line room (c ∷ cs) in taken.0 ∷ lines_of fuel room taken.1

-- With a byte for each round at least, this fuel is enough.
abbrev pub fgets_lines : ℕ → List ℕ → List (List ℕ)
fgets_lines room bytes = lines_of (suc (length bytes)) room bytes

module _ {m : Machine} (disk : Disk m) where
  -- What fgets reads from, if the file can be opened.
  abbrev pub content_of : List ℕ → m.Outside → Option (List ℕ)
  content_of filename o =
      if same_text filename (codes "stdin")
      then some (disk.read_stdin o)
      else disk.read_file filename o

  -- `if (strcmp (filename, "stdin") != 0) file = fopen (filename, "r"); else file = stdin;`
  unfoldable pub open_file : List ℕ → M m (Option (List ℕ))
  open_file filename w = some (content_of filename w.outside, w)

  -- A file that is written as a whole. Where fopen fails, the program goes on with a null pointer.
  unfoldable pub save_file : List ℕ → List ℕ → M m (Unit {0})
  save_file filename text w = elim (disk.write_file filename text w.outside) [
    | none ↦ none
    | some o ↦ some (tt, record w { outside = o })
  ]
