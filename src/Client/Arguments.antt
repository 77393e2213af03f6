-- ===== src/Client/Arguments.antt =====
-- The arguments of ptrim-client, and what the server says to a client that comes.
use plasma_trim_cli.Base.{
  ℤ, pos, negsuc, ℕ, zero, suc, ◌+◌, ◌-◌, ◌%◌, ◌^◌, Bool, ◌||◌, Option, none, some, List, [], ◌++◌,
  map, ltb, ◌==◌, if◌then◌else◌, length, get_or, take, drop, codes, c_string, same_text,
}
use plasma_trim_cli.Decimal.{atoi}
use plasma_trim_cli.Sequence.{crlf}

-- How a part of main ends: by an exit code, or normally.
pub data Flow : Type 0 where
  exit : ℕ → Flow
  next : Flow

-- The places of the arguments: 1 if there is no port.
pub record Call : Type 0 where
  pub host : List ℕ
  pub port : ℕ
  pub offset : ℕ

pub data ClientRequest : Type 0 where
  version : ClientRequest
  help : ClientRequest
  connect : Call → ClientRequest

abbrev pub text_at : List (List ℕ) → ℕ → List ℕ
text_at argv i = c_string (get_or argv i [])

-- `htons (portno)` cuts an `int` to 16 bits.
abbrev pub port_bits : ℤ → ℕ
port_bits (pos n) = n % 2 ^ 16
port_bits (negsuc n) = (2 ^ 16 - 1) - n % 2 ^ 16

-- A port of 0 is none, and the default is taken.
abbrev pub port_number : ℤ → ℕ × ℕ
port_number (pos zero) = (26163, 1)
port_number (pos (suc n)) = (port_bits (pos (suc n)), 0)
port_number (negsuc n) = (port_bits (negsuc n), 0)

-- `none` is strcmp of a null pointer: without arguments argv[1] is one.
unfoldable pub read_call : List (List ℕ) → Option ClientRequest
read_call argv =
    if ltb (length argv) 2
    then none
    else if same_text (text_at argv 1) (codes "--version")
        || same_text (text_at argv 1) (codes "-v")
    then some version
    else if same_text (text_at argv 1) (codes "--help") || same_text (text_at argv 1) (codes "-h")
    then some help
    else if ltb (length argv) 3
    then some help
    else (let port = port_number (atoi (text_at argv 2)) in
        some (connect (record { host = text_at argv 1; port = port.0; offset = port.1 })))

-- `about` and `devices`, and where what comes is put: 1 or 2, or nowhere.
pub record Greeting : Type 0 where
  pub save_to : ℕ
  pub about : List ℕ
  pub devices : List ℕ

-- `strcat (s, text)` on an array of `size` bytes; `none` is a write behind the array.
abbrev pub append_text : ℕ → List ℕ → List ℕ → Option (List ℕ)
append_text size s text = if ltb (length s + length text) size then some (s ++ text) else none

-- What the second character of a message says of where it is put.
abbrev pub save_place : ℕ → ℕ → ℕ
save_place c save_to =
    if c == b'a' then 1 else if c == b'd' then 2 else if c == b'/' then 0 else save_to

-- One round of the loop that waits for "[ready]", on the buffer that was read last. `about` has 1024
-- bytes, `devices` 4096.
unfoldable pub save_message : List ℕ → Greeting → Option Greeting
save_message buffer g =
    let to = save_place (get_or buffer 1 0) g.save_to in
    if to == 1
    then elim (append_text 1024 g.about (c_string buffer)) [
      | none ↦ none
      | some about ↦ some (record g { save_to = to; about = about })
    ]
    else if to == 2
    then elim (append_text 4096 g.devices (c_string buffer)) [
      | none ↦ none
      | some devices ↦ some (record g { save_to = to; devices = devices })
    ]
    else some (record g { save_to = to })

abbrev pub ready_text : List ℕ
ready_text = codes "[ready]" ++ crlf

abbrev pub incorrect_text : List ℕ
incorrect_text = codes "[incorrect code]" ++ crlf

abbrev pub is_greeted : List ℕ → Bool
is_greeted buffer =
    same_text (c_string buffer) ready_text || same_text (c_string buffer) incorrect_text

abbrev pub is_transfer : List ℕ → List ℕ → List (List ℕ) → ℕ → Bool
is_transfer word full_word argv i =
    same_text (text_at argv i) word || same_text (text_at argv i) full_word

-- `argv[first]`, … up to the index before `last`.
abbrev pub arguments : List (List ℕ) → ℕ → ℕ → List (List ℕ)
arguments argv first last = map c_string (drop first (take last argv))
