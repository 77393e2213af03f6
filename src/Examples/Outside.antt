-- ===== src/Examples/Outside.antt =====
-- A disk and a network to try the theorems on.
use plasma_trim_cli.Base.{ℕ, inl, inr, true, none, some, List, [], ◌∷◌, codes}
use plasma_trim_cli.Machine.{World}
use plasma_trim_cli.Machine.Queue.{echo, echo_world}
use plasma_trim_cli.Examples.Checks.{bytes}
use plasma_trim_cli.Files.{Disk}
use plasma_trim_cli.Net.{Net, Arrival, timed_out, arrived}

-- Each read brings what waits, and whoever calls is refused.
abbrev pub next_arrival : List (List ℕ) → Arrival × List (List ℕ)
next_arrival [] = (timed_out, [])
next_arrival (bytes ∷ more) = (arrived bytes, more)

abbrev pub wire : Net echo
wire = record {
  receive = λ socket seconds waiting. next_arrival waiting;
  read = λ socket waiting. (none, waiting);
  accept = λ waiting. (inr (codes "Too many open files"), waiting);
  hang_up = λ socket waiting. waiting;
  listen_on = λ port waiting. (some true, waiting);
  connect_to = λ host port waiting. (inl 5, waiting);
  stale_commands = λ waiting. [];
}

-- Any file holds two lines.
abbrev pub two_lines : List ℕ
two_lines = codes "first\nsecond\n"

abbrev pub disk : Disk echo
disk = record {
  read_file = λ name waiting. some two_lines;
  read_stdin = λ waiting. [];
  write_file = λ name content waiting. some waiting;
  stale_lines = λ waiting. [];
}

-- A world in which something waits to be read.
abbrev pub waiting_for : List (List ℕ) → World echo
waiting_for arrivals = record echo_world { outside = arrivals }
