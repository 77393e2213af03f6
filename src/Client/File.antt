-- ===== src/Client/File.antt =====
-- sendFile sends a file whole.
use plasma_trim_cli.Base.{
  ℕ, ◌≡◌, refl, ap₂, ◌≢◌, Option, some, List, [], ◌∷◌, ◌++◌, map, arith, All, c_string,
}
use mathlib.Core.Path.{subst}
use plasma_trim_cli.Machine.{Machine, World}
use plasma_trim_cli.Machine.Laws.{Returned}
use plasma_trim_cli.Files.{Disk, open_file, content_of, fgets_lines}
use plasma_trim_cli.Files.Laws.{join_lines, join_lines-fgets_lines}
use plasma_trim_cli.Client.{send_content, send_file, write_lines}
use plasma_trim_cli.Client.Speech.{terminated, spoken, write_lines-spoken}

All-left :
    (xs ys : List ℕ) → All (λ c. c ≢ 0) (xs ++ ys) → All (λ c. c ≢ 0) xs × All (λ c. c ≢ 0) ys
All-left [] ys h = (tt, h)
All-left (x ∷ xs) ys h = let (a, b) = All-left xs ys h.1 in ((h.0, a), b)

-- A text without a terminator is its own C string.
c_string_whole : (text : List ℕ) → All (λ c. c ≢ 0) text → c_string text ≡ text
unfolding c_string
c_string_whole [] h = refl
c_string_whole (c ∷ cs) h = ground (arith, c_string_whole cs h.1)

map-c_string :
    (lines : List (List ℕ)) → All (λ c. c ≢ 0) (join_lines lines) → map c_string lines ≡ lines
map-c_string [] h = refl
map-c_string (line ∷ lines) h =
    let (a, b) = All-left line (join_lines lines) h in
    ap₂ ◌∷◌ (c_string_whole line a) (map-c_string lines b)

module _ {m : Machine} where
  send_content-spoken :
      (filename : List ℕ) (socket : ℕ) (bytes : List ℕ) (content : Option (List ℕ)) (w : World m)
      → content ≡ some bytes
      → All (λ c. c ≢ 0) bytes
      → Returned
          (send_content filename socket content w)
          (λ _ v. v.replies ≡ spoken socket (map terminated (fgets_lines 1023 bytes)) w.replies)
  unfolding send_content
  send_content-spoken filename socket bytes content w e text =
      let lines = fgets_lines 1023 bytes in
      rw e (
        subst
          (λ l.
            Returned (write_lines 5 socket (map c_string lines) w)
              (λ _ v. v.replies ≡ spoken socket (map terminated l) w.replies))
          (map-c_string lines (rw (join_lines-fgets_lines 1022 bytes) text))
          (write_lines-spoken 5 socket (map c_string lines) w))

module _ {m : Machine} (disk : Disk m) where
  -- sendFile writes a file without zero bytes, or stdin, whole: the writes, each with a terminator
  -- behind it, are lines that put together are what the file holds. It comes back.
  pub send_file-whole :
      (filename : List ℕ) (socket : ℕ) (bytes : List ℕ) (w : World m)
      → content_of disk filename w.outside ≡ some bytes
      → All (λ c. c ≢ 0) bytes
      → (lines : List (List ℕ)) × (join_lines lines ≡ bytes)
        × Returned
            (send_file disk filename socket w)
            (λ _ v. v.replies ≡ spoken socket (map terminated lines) w.replies)
  unfolding send_file open_file
  send_file-whole filename socket bytes w e text = (
    fgets_lines 1023 bytes,
    join_lines-fgets_lines 1022 bytes,
    send_content-spoken filename socket bytes _ w e text,
  )
