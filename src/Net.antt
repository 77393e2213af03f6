-- ===== src/Net.antt =====
-- Sockets, as ptrim-server and ptrim-client use them, on the outside of a machine.
use plasma_trim_cli.Base.{ℕ, ◌⊎◌, Bool, Option, some, List}
use plasma_trim_cli.Machine.{Machine, M}

-- What `select` with a time limit and a `read` behind it come to. A `read` at the end of a connection
-- brings no bytes.
pub data Arrival : Type 0 where
  timed_out : Arrival
  select_failed : Arrival
  read_failed : Arrival
  arrived : List ℕ → Arrival

-- `receive` waits for a number of seconds, `read` without a limit: it is `none` if it fails. `accept` is a new socket, or the
-- text of an error. `listen_on` opens a socket at a port: `none` if socket fails, else whether bind
-- succeeds. `connect_to` is a socket to a host, or the text that main prints before it gives up.
pub record Net (m : Machine) : Type 0 where
  pub receive : ℕ → ℕ → m.Outside → Arrival × m.Outside
  pub read : ℕ → m.Outside → Option (List ℕ) × m.Outside
  pub accept : m.Outside → (ℕ ⊎ List ℕ) × m.Outside
  pub hang_up : ℕ → m.Outside → m.Outside
  pub listen_on : ℕ → m.Outside → Option Bool × m.Outside
  pub connect_to : List ℕ → ℕ → m.Outside → (ℕ ⊎ List ℕ) × m.Outside
  pub stale_commands : m.Outside → List (List ℕ)

module _ {m : Machine} (net : Net m) where
  unfoldable pub receive_within : ℕ → ℕ → M m Arrival
  receive_within socket seconds w = some (
    (net.receive socket seconds w.outside).0,
    record w { outside = (net.receive socket seconds w.outside).1 },
  )

  unfoldable pub accept_client : M m (ℕ ⊎ List ℕ)
  accept_client w = some ((net.accept w.outside).0, record w { outside = (net.accept w.outside).1 })

  unfoldable pub close_socket : ℕ → M m (Unit {0})
  close_socket socket w = some (tt, record w { outside = net.hang_up socket w.outside })

  unfoldable pub listen_at : ℕ → M m (Option Bool)
  listen_at port w =
      some
        ((net.listen_on port w.outside).0, record w { outside = (net.listen_on port w.outside).1 })

  unfoldable pub connect_at : List ℕ → ℕ → M m (ℕ ⊎ List ℕ)
  connect_at host port w = some (
    (net.connect_to host port w.outside).0,
    record w { outside = (net.connect_to host port w.outside).1 },
  )
