-- ===== src/Server/Threads.antt =====
-- A command changes only the devices that it names.
use plasma_trim_cli.Base.{
  ℕ, zero, suc, ◌≤◌, ◌≡◌, refl, ap, ◌∙◌, ◌≢◌, false, Option, none, some, List, [], ◌∷◌, map, ltb,
  if◌then◌else◌, ge→ltb, length, get_or, set, All, get_or-set_ne, codes,
}
use plasma_trim_cli.Machine.{Machine, World, M, ◌>>=◌, ◌>>◌, pure, stuck, or_stuck}
use plasma_trim_cli.Machine.Laws.{Returned, Returned->>=, Returned_map, IsResponsive}
use plasma_trim_cli.Server.State.{DeviceState, Instance, send_text}
use plasma_trim_cli.Server.Run.{is_upload, run_thread}
use plasma_trim_cli.Server.Shared.{HasText, text-IsArgument, left_commands-HasText}
use plasma_trim_cli.Server.Step.{IsStep, IsStep-none, IsStep-trans}
use plasma_trim_cli.Server.Notified.{run_thread-IsStep}
use plasma_trim_cli.Server.Command.{
  no_device, find_device_number, split_serials, all_found, left_commands, run_threads, run_command,
}

-- A command with its arguments, without the device.
abbrev pub request : List (List ℕ) → ℕ → Instance
request commands output = record {
  commands = commands;
  handle = 0;
  id = 0;
  selected_devices = 0;
  output = output;
}

-- From one table of devices to the next: every record makes a step, and one that is not named stays.
abbrev pub TableStep : ℕ → List ℕ → List DeviceState → List DeviceState → Type 0
TableStep output named before after =
    (k : ℕ)
    → IsStep output (get_or before k no_device) (get_or after k no_device)
      × (All (λ n. n ≢ k) named → get_or after k no_device ≡ get_or before k no_device)

IsStep-set :
    (output : ℕ) (devices : List DeviceState) (n k : ℕ) (d : DeviceState)
    → IsStep output (get_or devices n no_device) d
    → IsStep output (get_or devices k no_device) (get_or (set devices n d) k no_device)
IsStep-set output [] n k d h = IsStep-none output no_device
IsStep-set output (x ∷ xs) zero zero d h = h
IsStep-set output (x ∷ xs) zero (suc k) d h = IsStep-none output (get_or xs k no_device)
IsStep-set output (x ∷ xs) (suc n) zero d h = IsStep-none output x
IsStep-set output (x ∷ xs) (suc n) (suc k) d h = IsStep-set output xs n k d h

TableStep-then :
    (output n : ℕ) (ns : List ℕ) (before after : List DeviceState) (d : DeviceState)
    → IsStep output (get_or before n no_device) d
    → TableStep output ns (set before n d) after
    → TableStep output (n ∷ ns) before after
TableStep-then output n ns before after d h rest k = (
  IsStep-trans (IsStep-set output before n k d h) (rest k).0,
  λ others. (rest k).1 others.1 ∙ get_or-set_ne before n k d no_device others.0,
)

first_of :
    (x n : ℕ) (ns : List ℕ) (o : Option (List ℕ))
    → (elim o [ none ↦ none | some more ↦ some (x ∷ more) ]) ≡ some (n ∷ ns)
    → some x ≡ some n
first_of x n ns none h = cc
first_of x n ns (some more) h = cc

first_found :
    (numbers : List (Option ℕ)) (n : ℕ) (ns : List ℕ)
    → all_found numbers ≡ some (n ∷ ns)
    → get_or numbers 0 none ≡ some n
unfolding all_found
first_found [] n ns h = cc
first_found (none ∷ xs) n ns h = cc
first_found (some x ∷ xs) n ns h = first_of x n ns (all_found xs) h

module _ {m : Machine} (responsive : IsResponsive m) (shade : ℕ → ℕ → ℕ → ℕ → ℕ) where
  run_threads-TableStep :
      (commands : List (List ℕ)) (output selected id : ℕ) (ns : List ℕ) (devices : List DeviceState)
      (w : World m)
      → HasText commands
      → is_upload (request commands output) ≡ false
      → Returned
          (run_threads shade commands output selected id ns devices w)
          (λ devices' _. TableStep output ns devices devices')
  unfolding run_threads
  run_threads-TableStep commands output selected id [] devices w a no_upload =
      λ k. (IsStep-none output (get_or devices k no_device), λ _. refl)
  run_threads-TableStep commands output selected id (n ∷ ns) devices w a no_upload =
      let d = get_or devices n no_device in
      let i : Instance = record {
        commands = commands;
        handle = d.handle;
        id = id;
        selected_devices = selected;
        output = output;
      } in
      let (text_left, word_left) = left_commands-HasText i d a in
      Returned->>= (run_thread shade i d) _ w (λ d' _. IsStep output d d') _
        (run_thread-IsStep responsive i shade d w (text-IsArgument i a) no_upload)
        (λ d' v h.
          Returned_map
            (run_threads shade (left_commands i d) output selected (suc id) ns (set devices n d') v)
            _ _
            (run_threads-TableStep (left_commands i d) output selected (suc id) ns
              (set devices n d') v text_left (rw word_left no_upload))
            (λ devices' _ rest. TableStep-then output n ns devices devices' d' h rest))

  -- runCommand behind the serial numbers.
  abbrev go_on :
      List (List ℕ)
      → ℕ
      → List DeviceState
      → List (List ℕ)
      → Option ℕ
      → Option (List ℕ)
      → M m (List DeviceState)
  go_on commands output devices serials first_number found = elim first_number [
    | none ↦ do send_text output (codes "[device not found]\r\n"); pure devices
    | some _ ↦
        if ltb 32 (length serials)
        then stuck
        else (or_stuck found >>= λ ns.
            run_threads shade commands output (length serials) 0 ns devices)
  ]

  run_command_lem :
      (commands : List (List ℕ)) (output : ℕ) (devices : List DeviceState) (serials : List (List ℕ))
      (w : World m)
      → split_serials (suc (length (get_or commands 0 []))) (get_or commands 0 []) ≡ some serials
      → run_command shade commands output devices w
        ≡ go_on commands output devices serials
            (get_or (map (find_device_number devices) serials) 0 none)
            (all_found (map (find_device_number devices) serials))
            w
  unfolding run_command
  run_command_lem commands output devices serials w e =
      ap
        (λ o.
          (or_stuck o >>= λ s.
          go_on commands output devices s (get_or (map (find_device_number devices) s) 0 none)
            (all_found (map (find_device_number devices) s)))
            w)
        e

  -- A command but upload for 1 to 32 devices that are all found comes back, if the
  -- devices answer and its argument is a text below 256 printable ASCII characters. Every record of the table makes a
  -- step, so each of its changes is notified, and the record of a device that is not named stays as it
  -- was.
  pub run_command-TableStep :
      (commands : List (List ℕ)) (output : ℕ) (devices : List DeviceState) (serials : List (List ℕ))
      (n : ℕ) (ns : List ℕ) (w : World m)
      → split_serials (suc (length (get_or commands 0 []))) (get_or commands 0 []) ≡ some serials
      → length serials ≤ 32
      → all_found (map (find_device_number devices) serials) ≡ some (n ∷ ns)
      → HasText commands
      → is_upload (request commands output) ≡ false
      → Returned
          (run_command shade commands output devices w)
          (λ devices' _. TableStep output (n ∷ ns) devices devices')
  run_command-TableStep commands output devices serials n ns w split small found a no_upload =
      rw (run_command_lem commands output devices serials w split) (
        rw (first_found (map (find_device_number devices) serials) n ns found) (
          rw (ge→ltb 32 (length serials) small) (
            rw found (
              run_threads-TableStep commands output (length serials) 0 (n ∷ ns) devices w a
                no_upload))))
