-- ===== src/Server/Accept.antt =====
-- main of src/ptrim-server.cc: its arguments, and the loop that takes clients in.
use plasma_trim_cli.Base.{
  ℤ, pos, negsuc, pos_part, ltb_ℤ, ℕ, suc, ◌%◌, ◌^◌, ◌⊎◌, inl, inr, Bool, true, false, ◌||◌, Option,
  none, some, List, [], ◌∷◌, ◌++◌, ltb, ◌==◌, if◌then◌else◌, length, get_or, replicate, codes,
  c_string, same_text,
}
use plasma_trim_cli.Decimal.{atoi, decimal}
use plasma_trim_cli.Machine.{Machine, M, ◌>>=◌, ◌>>◌, pure, stuck, when, printf, fprintf_stderr}
use plasma_trim_cli.Text.{ptrim_lib_version, ptrim_server_version}
use plasma_trim_cli.Help.{server_help}
use plasma_trim_cli.Sequence.{crlf}
use plasma_trim_cli.Net.{Net, accept_client, close_socket, listen_at}

-- An element of `socket_id` and of `client_thread`: the socket, -1 for a client that has gone, -2 for
-- a free place; and whether a thread was created that nobody has joined yet.
pub record Place : Type 0 where
  pub socket_id : ℤ
  pub is_running : Bool

abbrev pub free_place : Place
free_place = record { socket_id = negsuc 1; is_running = false }

-- `socket_id[i] == -n`
abbrev pub is_code : ℤ → ℕ → Bool
is_code (pos k) n = false
is_code (negsuc k) n = suc k == n

abbrev pub is_gone : Place → Bool
is_gone p = is_code p.socket_id 1

abbrev pub is_free : Place → Bool
is_free p = is_code p.socket_id 2

-- The places after one run of the first inner loop: the first client that has gone is joined. `none`
-- is pthread_join of a thread that does not exist.
unfoldable pub join_gone : List Place → Option (List Place)
join_gone [] = some []
join_gone (p ∷ ps) =
    if is_gone p
    then (if p.is_running then some (free_place ∷ ps) else none)
    else elim (join_gone ps) [ none ↦ none | some ps' ↦ some (p ∷ ps') ]

module _ {m : Machine} (net : Net m) where
  -- What becomes of a free place. If accept fails, the thread of the place stays what it was. A client
  -- too many is closed; its thread is started all the same, on -2.
  unfoldable pub place_for : Place → ℕ → ℕ ⊎ List ℕ → M m Place
  place_for p number_clients (inr error) = do
    printf (codes "Error: accept(" ++ (error ++ (codes ")" ++ crlf)))
    pure (record p { socket_id = negsuc 0 })
  place_for p number_clients (inl socket) =
      if ltb number_clients 20
      then pure (record { socket_id = pos socket; is_running = true })
      else (do close_socket net socket; pure (record { socket_id = negsuc 1; is_running = true }))

  unfoldable pub accept_at : Place → ℕ → M m Place
  accept_at p number_clients = accept_client net >>= place_for p number_clients

  -- The second inner loop: the first free place is used.
  unfoldable pub accept_first : ℕ → List Place → M m (List Place)
  accept_first number_clients [] = pure []
  accept_first number_clients (p ∷ ps) =
      if is_free p
      then (accept_at p number_clients >>= λ p'. pure (p' ∷ ps))
      else (accept_first number_clients ps >>= λ ps'. pure (p ∷ ps'))

  -- One round of `while (1)`.
  unfoldable pub accept_round : ℕ → List Place → M m (List Place)
  accept_round number_clients places = elim (join_gone places) [
    | none ↦ stuck
    | some places' ↦ accept_first number_clients places'
  ]

-- What the arguments ask for. `rejected` is a port that is not valid.
pub data Request : Type 0 where
  version : Request
  help : ℕ → Request
  listen : List ℕ → ℕ → Bool → Request

abbrev pub default_port : ℕ
default_port = 26163

abbrev pub word_at : List (List ℕ) → ℕ → List ℕ
word_at argv i = c_string (get_or argv i [])

-- The port, or the default for one below 1.
abbrev pub valid_port : ℤ → ℕ × Bool
valid_port port = if ltb_ℤ port (pos 1) then (default_port, true) else (pos_part port, false)

-- `none` is strcmp of a null pointer: without arguments argv[1] is one.
unfoldable pub read_arguments : List (List ℕ) → Option Request
read_arguments argv =
    if ltb (length argv) 2
    then none
    else if same_text (word_at argv 1) (codes "--version")
        || same_text (word_at argv 1) (codes "-v")
    then some version
    else if same_text (word_at argv 1) (codes "--help") || same_text (word_at argv 1) (codes "-h")
    then some (help 0)
    else if length argv == 2
    then some (listen (word_at argv 1) default_port false)
    else (let port = valid_port (atoi (word_at argv 1)) in
        some (listen (word_at argv 2) port.0 port.1))

-- How main goes on: it ends with an exit code, or takes clients in.
pub data Started : Type 0 where
  ended : ℕ → Started
  listening : List ℕ → List Place → Started

module _ {m : Machine} (net : Net m) where
  -- The socket is opened; htons cuts the port to 16 bits.
  unfoldable pub start_listening : List ℕ → ℕ → M m Started
  start_listening code port = listen_at net (port % 2 ^ 16) >>= λ opened. elim opened [
    | none ↦ fprintf_stderr (codes "Could not opening socket" ++ crlf) >> pure (ended 1)
    | some bound ↦
        if bound
        then (do
          printf (
              codes "Listening on "
              ++ (decimal port ++ (codes " for code '" ++ (code ++ (b'\'' ∷ crlf)))))
          pure (listening code (replicate 21 free_place)))
        else (do
          fprintf_stderr (codes "Could not bind to port " ++ (decimal port ++ crlf))
          pure (ended 1))
  ]

  -- main as far as its loop. The threads that it creates are monitor_devices and send_notifications,
  -- round after round.
  unfoldable pub server_main : ℕ → List (List ℕ) → M m Started
  server_main columns argv = elim (read_arguments argv) [
    | none ↦ stuck
    | some request ↦ elim request [
      | version ↦ do ptrim_lib_version columns; ptrim_server_version columns; pure (ended 0)
      | help code ↦ server_help columns >> pure (ended code)
      | listen code port rejected ↦ do
        when rejected (
            fprintf_stderr (
              codes "Port number not valid, using the default ("
              ++ (decimal port ++ (codes ")" ++ crlf))))
        start_listening code port
    ]
  ]
