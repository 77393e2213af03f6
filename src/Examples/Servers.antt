-- ===== src/Examples/Servers.antt =====
-- A table of devices and commands of clients to try the theorems on.
use plasma_trim_cli.Base.{
  pos, negsuc, ℕ, ◌+◌, ◌/◌, ◌≡◌, refl, true, false, some, List, [], ◌∷◌, ◌++◌, map, arith,
  replicate, All, codes, c_string, same_text,
}
use plasma_trim_cli.Machine.Laws.{Returned}
use plasma_trim_cli.Machine.Queue.{echo, echo-IsResponsive, echo_world}
use plasma_trim_cli.Examples.Checks.{text, serial}
use plasma_trim_cli.Server.State.{Status, DeviceState, no_notify, is_socket, Instance}
use plasma_trim_cli.Server.Run.{run_thread}
use plasma_trim_cli.Server.Step.{IsStep}
use plasma_trim_cli.Server.Denied.{IsLockedOut, denied_all, run_all, run_all-denied}
use plasma_trim_cli.Server.Notified.{IsArgument, run_thread-IsStep}
use plasma_trim_cli.Server.Command.{
  take_serial, skip_gap, no_device, find_device_number, split_serials, all_found, run_command,
}
use plasma_trim_cli.Server.Threads.{TableStep, run_command-TableStep}
use plasma_trim_cli.Server.Connection.{freed, release_locks, stops, release_locks-freed}
use plasma_trim_cli.Server.Find.{join_serials, split_serials-join_serials}
use plasma_trim_cli.Server.Info.{send_notifications}
use plasma_trim_cli.Server.Shared.{HasText}
use plasma_trim_cli.Server.Monitor.{Bus, set_up}
use plasma_trim_cli.Server.Added.{IsNew, IsAnswered, greeted, set_up-IsNew}
use plasma_trim_cli.Server.Announced.{announced, AllTold}
use plasma_trim_cli.Server.Told.{AllHeard, told, send_notifications-told}

abbrev pub halfway : ℕ → ℕ → ℕ → ℕ → ℕ
halfway x y steps i = (x + y) / 2

-- A device that client 7 holds, and one that nobody holds.
abbrev pub held : DeviceState
held = record no_device {
  handle = 3;
  open_device = codes "/dev/a" ++ replicate 26 0;
  serial = codes "1B2C3D4E" ++ (0 ∷ 0 ∷ []);
  status = Status.lock;
  lock = pos 7;
}

abbrev loose : DeviceState
loose = record no_device {
  handle = 4;
  open_device = codes "/dev/b" ++ replicate 26 0;
  serial = codes "1B2C3D4F" ++ (0 ∷ 0 ∷ []);
  status = Status.play;
  notify = record no_notify { status = true };
}

abbrev line : List ℕ → List ℕ
line s = s ++ (0 ∷ [])

-- What client 8 asks.
abbrev asks : List ℕ → List ℕ → Instance
asks command argument = record {
  commands = line (codes "1B2C3D4E 1B2C3D4F") ∷ line command ∷ line argument ∷ [];
  handle = 3;
  id = 0;
  selected_devices = 1;
  output = 8;
}

out_start : IsLockedOut held (asks (codes "start") [])
unfolding same_text c_string
out_start = record { locked = refl; other = refl; no_force = refl }

run_all-denied_example :
    run_all halfway (asks (codes "start") [] ∷ asks (codes "start") [] ∷ []) held echo_world
    ≡ some (
      held,
      record echo_world {
        replies = denied_all (asks (codes "start") [] ∷ asks (codes "start") [] ∷ []) held [];
      },
    )
run_all-denied_example =
    run_all-denied halfway (asks (codes "start") [] ∷ asks (codes "start") [] ∷ []) held echo_world
      (out_start, (out_start, tt))

-- The colour of the command is an argument.
colored :
    (handle : ℕ) (selected : ℕ)
    → IsArgument (record (asks (codes "color") (codes "F80")) {
      handle = handle;
      selected_devices = selected;
    })
colored handle selected = record {
  text = codes "F80";
  tail = [];
  memory = refl;
  nonzero = text (codes "F80") refl;
  short = omega arith;
  missing = λ h. absurd (not_missing h);
}
  where
    not_missing : false ≡ true → ⊥
    not_missing h = cc

run_thread-IsStep_example :
    Returned
      (run_thread halfway (asks (codes "color") (codes "F80")) loose echo_world)
      (λ d' _. IsStep 8 loose d')
unfolding same_text c_string
run_thread-IsStep_example =
    run_thread-IsStep echo-IsResponsive (asks (codes "color") (codes "F80")) halfway loose
      echo_world (colored 3 1) refl

abbrev pub table : List DeviceState
table = held ∷ loose ∷ []

abbrev both : List (List ℕ)
both = codes "1B2C3D4E" ∷ codes "1B2C3D4F" ∷ []

-- A colour with spaces, which the first of two threads strips.
spaced : HasText (asks (codes "color") (codes "   f00")).commands
spaced = record {
  text = codes "   f00";
  tail = [];
  stands = refl;
  printable = (
    (omega arith, omega arith),
    (
      (omega arith, omega arith),
      (
        (omega arith, omega arith),
        (
          (omega arith, omega arith),
          ((omega arith, omega arith), ((omega arith, omega arith), tt)),
        ),
      ),
    ),
  );
  fits = omega arith;
}

run_command-TableStep_example :
    Returned
      (run_command halfway (asks (codes "color") (codes "   f00")).commands 8 table echo_world)
      (λ table' _. TableStep 8 (0 ∷ 1 ∷ []) table table')
unfolding split_serials take_serial skip_gap find_device_number all_found same_text c_string
run_command-TableStep_example =
    run_command-TableStep echo-IsResponsive halfway (asks (codes "color") (codes "   f00")).commands
      8 table both 0 (1 ∷ []) echo_world refl (omega arith) refl spaced refl

release_locks-freed_example : Returned (release_locks 7 table echo_world) (λ table' v.
    (table' ≡ map (freed 7) table)
    × All (λ d. is_socket d.lock 7 ≡ false) table'
    × (v.sent ≡ stops 7 table []))
release_locks-freed_example = release_locks-freed echo-IsResponsive 7 table echo_world

split_serials-join_serials_example :
    split_serials 4 (join_serials (codes "1B2C3D4E") (codes "1B2C3D4F" ∷ []) ++ (0 ∷ 9 ∷ []))
    ≡ some both
split_serials-join_serials_example =
    split_serials-join_serials 4 (codes "1B2C3D4E") (codes "1B2C3D4F" ∷ []) (9 ∷ []) (omega arith) (
      serial (codes "1B2C3D4E") refl (omega arith) (omega arith),
      (serial (codes "1B2C3D4F") refl (omega arith) (omega arith), tt),
    )

send_notifications-told_example :
    Returned (send_notifications (pos 7 ∷ negsuc 1 ∷ []) table echo_world) (λ table' v.
      (table' ≡ map told table) × (v.sent ≡ []) × AllHeard (pos 7 ∷ negsuc 1 ∷ []) table v.replies)
send_notifications-told_example = send_notifications-told (pos 7 ∷ negsuc 1 ∷ []) table echo_world

-- A bus on which one device of the table is left.
abbrev pub one_left : Bus echo
one_left = record {
  hid_enumerate = λ o. codes "/dev/a" ∷ [];
  hid_open_path = λ path o. (some 9, o);
  hid_close = λ handle o. o;
}

set_up-IsNew_example : Returned (set_up (pos 7 ∷ []) 9 (codes "/dev/c") echo_world) (λ d v.
    IsNew 9 (codes "/dev/c") d
    × IsAnswered 9 echo_world d
    × AllTold (pos 7 ∷ []) (announced d) v.replies
    × (v.sent ≡ greeted 9 []))
set_up-IsNew_example = set_up-IsNew echo-IsResponsive (pos 7 ∷ []) 9 (codes "/dev/c") echo_world
