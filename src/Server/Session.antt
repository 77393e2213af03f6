-- ===== src/Server/Session.antt =====
-- manageConnection: the security code, and the commands of a client up to its end.
use plasma_trim_cli.Base.{
  ℤ, pos, negsuc, ℕ, zero, suc, ◌-◌, Bool, true, false, not, ◌&&◌, ◌||◌, Option, none, some, List,
  [], ◌∷◌, ◌++◌, ◌==◌, if◌then◌else◌, length, get_or, set, take, replicate, codes, same_text,
}
use plasma_trim_cli.Machine.{Machine, M, ◌>>=◌, ◌>>◌, pure, stuck, delay}
use plasma_trim_cli.Net.{
  Net, Arrival, timed_out, select_failed, read_failed, arrived, receive_within, close_socket,
}
use plasma_trim_cli.Server.State.{DeviceState, send_text}
use plasma_trim_cli.Server.Info.{client_welcome, connected_devices}
use plasma_trim_cli.Server.Command.{char_above, run_command}
use plasma_trim_cli.Server.Connection.{release_locks}

-- `while (buffer[i] != 0x00) { if (buffer[i] < 0x20) buffer[i] = 0x00; i++; }`, on signed chars: the
-- code is what is in front of the first of these.
unfoldable pub clean_code : List ℕ → List ℕ
clean_code [] = []
clean_code (c ∷ cs) = let rest = clean_code cs in if char_above 0x1F c then c ∷ rest else []

-- `buffer` and `commands`, each the memory of its bytes.
pub record Session : Type 0 where
  pub buffer : List ℕ
  pub commands : List (List ℕ)

-- A buffer of 964 bytes that was filled by `read`.
abbrev pub filled : List ℕ → List ℕ
filled bytes = let kept = take 963 bytes in kept ++ replicate (964 - length kept) 0

-- `while (buffer[j] > 0x19)`: a command line.
unfoldable pub take_command : List ℕ → List ℕ
take_command [] = 0 ∷ []
take_command (c ∷ cs) = let rest = take_command cs in if char_above 0x19 c then c ∷ rest else 0 ∷ []

-- A first character that ends the reading of lines: an end of line, no character, '!' or '.'.
abbrev pub ends_command : List ℕ → Bool
ends_command buffer =
    let c = get_or buffer 0 0 in c == 0x0D || (c == 0x0A || (c == 0 || (c == b'!' || c == b'.')))

-- `commands[0][0]`
abbrev pub first_character : Session → ℕ
first_character s = get_or (get_or s.commands 0 []) 0 0

-- `commands[0][0] = '!'; buffer[0] = '!';`
abbrev pub quit : Session → Session
quit s = record {
  buffer = set s.buffer 0 b'!';
  commands = set s.commands 0 (set (get_or s.commands 0 []) 0 b'!');
}

-- The memory that a line is read to, cleared.
abbrev pub cleared : ℕ → Session → Session
cleared i s = record { buffer = replicate 964 0; commands = set s.commands i (replicate 964 0) }

abbrev pub took_line : ℕ → List ℕ → Session → Session
took_line i bytes s = record {
  buffer = filled bytes;
  commands = set s.commands i (take_command (filled bytes));
}

-- `commands[0][0] != '!' && commands[0][0] != 0x00`
abbrev pub goes_on : Session → Bool
goes_on s = not (first_character s == b'!') && not (first_character s == 0)

abbrev pub is_dot : Session → Bool
is_dot s = get_or s.buffer 0 0 == b'.'

-- What a connection leaves: the table, `numberClients`, and its element of `socket_id`.
pub record Left : Type 0 where
  pub devices : List DeviceState
  pub number_clients : ℕ
  pub slot : ℤ

module _ {m : Machine} (net : Net m) where
  -- The loop that reads the lines of a command from line `i` on, with the room that is left in
  -- `commands`; `none` is its `return NULL`.
  unfoldable pub read_commands : ℕ → ℕ → ℕ → Session → M m (Option Session)
  read_commands socket zero i s = pure (some s)
  read_commands socket (suc room) i s = elim (ends_command s.buffer) [
    | true ↦ pure (some s)
    | false ↦ receive_within net socket 300 >>= λ arrival. elim arrival [
      | select_failed ↦ pure none
      | timed_out ↦ pure (some (quit (cleared i s)))
      | read_failed ↦ pure (some (quit (cleared i s)))
      | arrived bytes ↦ read_commands socket room (suc i) (took_line i bytes s)
    ]
  ]

  -- `do { … } while (…)`: one command after the other, with fuel. It returns whether it ends normally,
  -- that is not by `return NULL`, and the table.
  unfoldable pub serve :
      (ℕ → ℕ → ℕ → ℕ → ℕ) → ℕ → ℕ → Session → List DeviceState → M m (Bool × List DeviceState)
  serve shade zero socket s devices = stuck
  serve shade (suc fuel) socket s devices = do
    delay 100
    send_text socket (codes "[ready]\r\n")
    next ← read_commands socket 1024 0 s
    elim next [
      | none ↦ pure (false, devices)
      | some t ↦ do
        devices' ←
            (if goes_on t && not (is_dot t)
              then (do
                delay 100
                send_text socket (codes "[accepted]\r\n")
                run_command shade t.commands socket devices)
              else pure devices)
        elim (goes_on t) [
          | true ↦ serve shade fuel socket (record t { buffer = replicate 964 1 }) devices'
          | false ↦ pure (true, devices')
        ]
    ]

  -- The end: the locks of the client are released, and its socket is closed.
  unfoldable pub hang_up_client : ℕ → List DeviceState → ℕ → M m Left
  hang_up_client socket devices number_clients = do
    devices' ← release_locks socket devices
    close_socket net socket
    pure (record { devices = devices'; number_clients = number_clients; slot = negsuc 0 })

  -- A client with the right code.
  unfoldable pub welcome : (ℕ → ℕ → ℕ → ℕ → ℕ) → ℕ → ℕ → List ℕ → List DeviceState → ℕ → M m Left
  welcome shade fuel socket buffer devices number_clients w =
      (do
        client_welcome socket
        delay 100
        connected_devices socket devices
        served ←
            serve shade fuel socket
              (record {
                buffer = clean_code buffer ++ (0 ∷ []);
                commands = net.stale_commands w.outside;
              })
              devices
        (if served.0
            then hang_up_client socket served.1 number_clients
            else pure (record {
              devices = served.1;
              number_clients = suc number_clients;
              slot = pos socket;
            })))
        w

  -- `strcmp (buffer, code) == 0`, behind the cleaning of the buffer.
  unfoldable pub check_code :
      (ℕ → ℕ → ℕ → ℕ → ℕ) → ℕ → List ℕ → ℕ → List ℕ → List DeviceState → ℕ → M m Left
  check_code shade fuel code socket buffer devices number_clients =
      if same_text (clean_code buffer) code
      then welcome shade fuel socket buffer devices number_clients
      else (do
        send_text socket (codes "[incorrect code]\r\n")
        hang_up_client socket devices number_clients)

  -- What select and read bring first.
  unfoldable pub first_arrival :
      (ℕ → ℕ → ℕ → ℕ → ℕ) → ℕ → List ℕ → ℕ → List DeviceState → ℕ → Arrival → M m Left
  first_arrival shade fuel code socket devices number_clients select_failed =
      pure (record { devices = devices; number_clients = number_clients; slot = pos socket })
  first_arrival shade fuel code socket devices number_clients timed_out =
      hang_up_client socket devices number_clients
  first_arrival shade fuel code socket devices number_clients read_failed =
      check_code shade fuel code socket (replicate 964 0) devices number_clients
  first_arrival shade fuel code socket devices number_clients (arrived bytes) =
      check_code shade fuel code socket (filled bytes) devices number_clients

  -- manageConnection, for the element of `socket_id`. What other threads do to the table meanwhile is
  -- not seen.
  unfoldable pub manage_connection :
      (ℕ → ℕ → ℕ → ℕ → ℕ) → ℕ → List ℕ → ℤ → List DeviceState → ℕ → M m Left
  manage_connection shade fuel code (negsuc n) devices number_clients =
      pure (record { devices = devices; number_clients = number_clients; slot = negsuc 0 })
  manage_connection shade fuel code (pos socket) devices number_clients =
      receive_within net socket 5 >>= first_arrival shade fuel code socket devices number_clients
