-- ===== src/Machine/Queue.antt =====
-- A machine to run the program on: each device answers a report with that report.
use plasma_trim_cli.Base.{ℕ, List, [], ◌∷◌}
use plasma_trim_cli.Machine.{Machine, Reading, idle, report, World}
use plasma_trim_cli.Machine.Laws.{IsResponsive}

abbrev pub echo_read : List (List ℕ) → Reading × List (List ℕ)
echo_read [] = (idle, [])
echo_read (r ∷ rs) = (report r, rs)

-- The answers that wait are in a list, newest first.
abbrev pub echo : Machine
echo = record {
  Outside = List (List ℕ);
  hid_write = λ handle cmd waiting. cmd ∷ waiting;
  hid_read = λ handle waiting. echo_read waiting;
  stale_char = λ waiting. 0;
  patience = 2;
}

pub echo-IsResponsive : IsResponsive echo
echo-IsResponsive handle cmd waiting = tt

abbrev pub echo_world : World echo
echo_world = record { outside = []; sent = []; slept = 0; stdout = []; stderr = []; replies = [] }
