-- ===== src/Examples/Sessions.antt =====
-- Connections and the table of the server to try the theorems on.
use plasma_trim_cli.Examples.Outside.{wire, disk, waiting_for}
use plasma_trim_cli.Base.{
  pos, negsuc, ℕ, ◌≡◌, refl, inl, true, false, Option, none, some, List, [], ◌∷◌, map, arith,
  replicate, All, length-replicate, codes, c_string, same_text,
}
use plasma_trim_cli.Machine.Laws.{Returned}
use plasma_trim_cli.Machine.Queue.{echo, echo_world}
use plasma_trim_cli.Examples.Servers.{halfway, table, one_left}
use plasma_trim_cli.Decimal.{atoi}
use plasma_trim_cli.Client.Visit.{visit, client_main-spoken}
use plasma_trim_cli.Net.{Net}
use plasma_trim_cli.Client.{ready_text, Call, read_call, client_main, send_arguments}
use plasma_trim_cli.Client.Speech.{terminated, writes, spoken}
use plasma_trim_cli.Server.Command.{no_device}
use plasma_trim_cli.Server.Monitor.{monitor_devices}
use plasma_trim_cli.Server.Sound.{IsSound, no_devices-IsSound}
use plasma_trim_cli.Server.Monitored.{monitor_devices-IsSound}
use plasma_trim_cli.Server.Session.{
  Session, filled, take_command, clean_code, clean_code, read_commands, manage_connection,
}
use plasma_trim_cli.Server.Dialogue.{Understood, IsLine, send_arguments-read_commands}
use plasma_trim_cli.Server.Farewell.{Released, manage_connection-Released}
use plasma_trim_cli.Machine.Queue.{echo-IsResponsive}
use plasma_trim_cli.Server.Denial.{Untouched, manage_connection-Untouched}
use plasma_trim_cli.Server.Accept.{Place, free_place, accept_round}
use plasma_trim_cli.Server.Places.{AllKept, accept_round-AllKept, accept_round-failed}

-- A server without devices finds one.
monitor_devices-IsSound_example :
    Returned
      (monitor_devices one_left [] 0 (replicate 32 no_device) echo_world)
      (λ devices _. All IsSound devices)
monitor_devices-IsSound_example =
    monitor_devices-IsSound echo-IsResponsive one_left [] 0 (replicate 32 no_device) echo_world
      (λ o. (((λ e. omega arith), tt), (omega arith, tt))) (no_devices-IsSound 32)

-- Nobody has locked anything by socket 9, and who calls there says the wrong word.
manage_connection-Untouched_example :
    Returned
      (manage_connection wire halfway 3
        (codes "secret")
        (pos 9)
        table
        1
        (waiting_for (codes "guess" ∷ [])))
      (Untouched table 1 (waiting_for (codes "guess" ∷ [])))
unfolding same_text take_command clean_code
manage_connection-Untouched_example =
    manage_connection-Untouched wire halfway 3 (codes "secret") 9 table 1 (refl, (refl, tt))
      (waiting_for (codes "guess" ∷ [])) refl

-- ptrim-client localhost 26163 secret ALL start
abbrev call : List (List ℕ)
call = map terminated (
    codes "ptrim-client"
    ∷ codes "localhost"
    ∷ codes "26163"
    ∷ codes "secret"
    ∷ codes "ALL"
    ∷ codes "start"
    ∷ [])

abbrev said : List (List ℕ)
said = codes "ALL" ∷ codes "start" ∷ []

abbrev session : Session
session = record { buffer = filled (codes "secret"); commands = replicate 1024 (replicate 962 0) }

send_arguments-read_commands_example :
    Returned
      (send_arguments disk wire 3 5 call 0 echo_world)
      (λ _ v. v.replies ≡ spoken 5 (writes said) [])
    × Returned
        (read_commands wire 9 1024 0 session (waiting_for (writes said)))
        (Understood said (waiting_for (writes said)))
unfolding same_text c_string
send_arguments-read_commands_example =
    send_arguments-read_commands disk wire wire 3 5 call 0 echo_world 9 session
      (waiting_for (writes said)) refl refl (all_line, (start_line, tt)) (omega arith)
      (length-replicate {A = List ℕ} 1024 (replicate {A = ℕ} 962 0)) refl (refl, (refl, (refl, tt)))
  where
    all_line : IsLine (codes "ALL")
    all_line = (
      (λ e. omega arith),
      (λ e. omega arith),
      ((omega arith, omega arith), ((omega arith, omega arith), ((omega arith, omega arith), tt))),
      omega arith,
    )

    start_line : IsLine (codes "start")
    start_line = (
      (λ e. omega arith),
      (λ e. omega arith),
      (
        (omega arith, omega arith),
        (
          (omega arith, omega arith),
          (
            (omega arith, omega arith),
            ((omega arith, omega arith), ((omega arith, omega arith), tt)),
          ),
        ),
      ),
      omega arith,
    )

-- A client, one that has gone, and a free place.
abbrev places : List Place
places =
    record { socket_id = pos 7; is_running = true }
    ∷ record { socket_id = negsuc 0; is_running = true }
    ∷ free_place
    ∷ []

accept_round-AllKept_example :
    Returned
      (accept_round wire 1 places echo_world)
      (λ places' v. AllKept places places' × (v.sent ≡ []))
accept_round-AllKept_example =
    accept_round-AllKept wire 1 places echo_world
      ((λ e. refl), ((λ e. refl), ((λ e. absurd (never e)), tt)))
  where
    never : false ≡ true → ⊥
    never e = cc

accept_round-failed_example :
    Returned
      (accept_round wire 1 (free_place ∷ []) echo_world)
      (λ places' v. (n : ℕ) → accept_round wire n places' v ≡ none)
accept_round-failed_example =
    accept_round-failed wire 1 (free_place ∷ []) echo_world (codes "Too many open files", refl)
      (refl, tt) (inl (refl, refl))

-- Client 7, who holds the first device, gives the code and says "!".
manage_connection-Released_example :
    Returned
      (manage_connection wire halfway 1
        (codes "secret")
        (pos 7)
        table
        1
        (waiting_for (codes "secret" ∷ codes "!" ∷ [])))
      (Released 7 table 1 (waiting_for (codes "secret" ∷ codes "!" ∷ [])))
unfolding same_text clean_code
manage_connection-Released_example =
    manage_connection-Released echo-IsResponsive wire halfway 0 (codes "secret") 7 table 1
      (codes "secret") (waiting_for (codes "secret" ∷ codes "!" ∷ [])) refl refl refl refl

-- Each read brings what waits, and then "[ready]".
abbrev ready_read : List (List ℕ) → Option (List ℕ) × List (List ℕ)
ready_read [] = (some ready_text, [])
ready_read (message ∷ more) = (some message, more)

abbrev ready : Net echo
ready = record wire { read = λ socket waiting. ready_read waiting }

ready_reads : (o : List (List ℕ)) → (bytes : List ℕ) × ((ready_read o).0 ≡ some bytes)
ready_reads [] = (ready_text, refl)
ready_reads (message ∷ more) = (message, refl)

abbrev called : Call
called = record { host = codes "localhost"; port = 26163; offset = 0 }

client_main-spoken_example :
    Returned
      (client_main disk ready 80 4 call (waiting_for (codes "[about]\r\n" ∷ [])))
      (λ code v. (code ≡ 0) × (v.replies ≡ spoken 5 (visit call 0) []))
unfolding read_call atoi same_text c_string
client_main-spoken_example =
    client_main-spoken disk ready 80 4 1 5 call called (waiting_for (codes "[about]\r\n" ∷ [])) refl
      refl ready_reads (codes "[about]\r\n", refl, refl, omega arith, (ready_text, refl, refl))
      (omega arith) (omega arith) refl refl
