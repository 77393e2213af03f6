-- ===== src/Server/Command.antt =====
-- findDeviceNumber and runCommand: the devices that a command names, one thread for each.
use plasma_trim_cli.Base.{
  negsuc, ℕ, zero, suc, Bool, true, false, not, ◌&&◌, Option, none, some, List, [], ◌∷◌, map, ltb,
  ◌==◌, if◌then◌else◌, length, get_or, set, replicate, codes, c_string, same_text,
}
use plasma_trim_cli.Machine.{Machine, M, ◌>>=◌, ◌>>◌, pure, stuck, or_stuck}
use plasma_trim_cli.Color.{make_color}
use plasma_trim_cli.Server.State.{
  DeviceState, Status, no_notify, send_text, Instance, is_command, is_missing, command_at,
}
use plasma_trim_cli.Server.Run.{is_permitted, run_thread}

-- An index without a device, as monitorDevices starts with it.
abbrev pub no_device : DeviceState
no_device = record {
  handle = 0;
  open_device = replicate 32 0;
  serial = replicate 10 0;
  name = replicate 27 0;
  brightness = 0;
  temp_brightness = 0;
  status = Status.disconnect;
  notify = no_notify;
  lock = negsuc 0;
}

abbrev pub is_open : DeviceState → Bool
is_open d = not (get_or d.open_device 0 0 == 0)

abbrev pub has_serial : List ℕ → DeviceState → Bool
has_serial serial_number d = is_open d && same_text (c_string d.serial) serial_number

-- The loop of findDeviceNumber from index `i` on; `none` is its -1.
unfoldable pub find_from : ℕ → List DeviceState → List ℕ → Option ℕ
find_from i [] serial_number = none
find_from i (d ∷ ds) serial_number =
    let more = find_from (suc i) ds serial_number in
    if has_serial serial_number d then some i else more

unfoldable pub find_device_number : List DeviceState → List ℕ → Option ℕ
unfolding find_from
find_device_number devices serial_number = find_from 0 devices serial_number

-- `c > low` for a signed `char`.
abbrev pub char_above : ℕ → ℕ → Bool
char_above low c = ltb low c && ltb c 128

-- `while (commands[0][i] > 0x20) …`: the characters of a serial number and what is behind them.
unfoldable pub take_serial : List ℕ → List ℕ × List ℕ
take_serial [] = ([], [])
take_serial (c ∷ cs) =
    let (taken, rest) = take_serial cs in
    if char_above 0x20 c then (c ∷ taken, rest) else ([], c ∷ cs)

-- `while (commands[0][i] > 0x00 && commands[0][i] < 0x30) i++`
unfoldable pub skip_gap : List ℕ → List ℕ
skip_gap [] = []
skip_gap (c ∷ cs) = let rest = skip_gap cs in if ltb 0 c && ltb c 0x30 then rest else c ∷ cs

-- `while (commands[0][i] > 0x19)`: the serial numbers of a command. `serialNumber` has 10 bytes, so
-- one of more than 9 characters has no meaning: it is written behind the array, or has no terminator.
unfoldable pub split_serials : ℕ → List ℕ → Option (List (List ℕ))
split_serials zero line = none
split_serials (suc fuel) line = elim (char_above 0x19 (get_or line 0 0)) [
  | false ↦ some []
  | true ↦
      let (serial_number, rest) = take_serial line in
      elim (ltb 9 (length serial_number)) [
        | true ↦ none
        | false ↦ elim (split_serials fuel (skip_gap rest)) [
          | none ↦ none
          | some more ↦ some (serial_number ∷ more)
        ]
      ]
]

-- All the numbers, or none if one is missing.
unfoldable pub all_found : List (Option ℕ) → Option (List ℕ)
all_found [] = some []
all_found (none ∷ ns) = none
all_found (some n ∷ ns) = elim (all_found ns) [ none ↦ none | some more ↦ some (n ∷ more) ]

-- The memory at a text behind makeColor, which strips it in place.
abbrev pub stripped : List ℕ → List ℕ
stripped color = elim (make_color color true) [ none ↦ color | some r ↦ r.1 ]

-- `commands` behind a thread. The threads share it, and makeColor strips the argument of `color` and
-- of `fade` where it stands; `color` calls it twice if the argument is missing.
unfoldable pub left_commands : Instance → DeviceState → List (List ℕ)
left_commands instance_data d =
    if is_permitted instance_data d && is_command instance_data 1 (codes "color")
    then (if is_missing instance_data 2
        then set instance_data.commands 2 (stripped (stripped (command_at instance_data 2)))
        else set instance_data.commands 2 (stripped (command_at instance_data 2)))
    else if is_permitted instance_data d && is_command instance_data 1 (codes "fade")
    then set instance_data.commands 2 (stripped (command_at instance_data 2))
    else instance_data.commands

module _ {m : Machine} where
  -- The threads, one after the other: each of them changes the record of its own device, and the
  -- commands that they share.
  unfoldable pub run_threads :
      (ℕ → ℕ → ℕ → ℕ → ℕ)
      → List (List ℕ)
      → ℕ
      → ℕ
      → ℕ
      → List ℕ
      → List DeviceState
      → M m (List DeviceState)
  run_threads shade commands output selected id [] devices = pure devices
  run_threads shade commands output selected id (n ∷ ns) devices = do
    let d = get_or devices n no_device
    let instance_data : Instance = record {
      commands = commands;
      handle = d.handle;
      id = id;
      selected_devices = selected;
      output = output;
    }
    d' ← run_thread shade instance_data d
    run_threads shade (left_commands instance_data d) output selected (suc id) ns (set devices n d')

  -- runCommand. Only the first serial number is checked: with a later one that is not found, a thread
  -- is started on an instance that nobody initialised, and more than MAX_DEVICES numbers are written
  -- behind an array. Both have no meaning here.
  unfoldable pub run_command :
      (ℕ → ℕ → ℕ → ℕ → ℕ) → List (List ℕ) → ℕ → List DeviceState → M m (List DeviceState)
  run_command shade commands output devices = do
    let line = get_or commands 0 []
    serials ← or_stuck (split_serials (suc (length line)) line)
    let numbers = map (find_device_number devices) serials
    elim (get_or numbers 0 none) [
      | none ↦ do send_text output (codes "[device not found]\r\n"); pure devices
      | some _ ↦
          if ltb 32 (length serials)
          then stuck
          else (or_stuck (all_found numbers) >>= λ found.
              run_threads shade commands output (length serials) 0 found devices)
    ]
