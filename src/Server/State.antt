-- ===== src/Server/State.antt =====
-- The arrays of src/ptrim-server.h, one record for each index below MAX_DEVICES.
use plasma_trim_cli.Base.{
  ℤ, pos, negsuc, ℕ, Bool, true, false, ◌||◌, List, [], ltb, leb, ◌==◌, length, get_or, codes,
  c_string, same_text,
}
use plasma_trim_cli.Machine.{Machine, M, ◌>>◌, send}

pub data Status : Type 0 where
  disconnect : Status
  play : Status
  idle : Status
  stream : Status
  lock : Status

-- The codes that the source compares.
abbrev pub status_code : Status → ℕ
status_code Status.disconnect = 0
status_code Status.play = 1
status_code Status.idle = 2
status_code Status.stream = 3
status_code Status.lock = 4

abbrev pub is_status : Status → Status → Bool
is_status a b = status_code a == status_code b

-- The bits of `notify`: NAME 0x01, BRIGHTNESS 0x02, TEMP_BRIGHTNESS 0x04, STATUS 0x08.
pub record Notify : Type 0 where
  pub name : Bool
  pub brightness : Bool
  pub temp_brightness : Bool
  pub status : Bool

abbrev pub no_notify : Notify
no_notify = record { name = false; brightness = false; temp_brightness = false; status = false }

-- `serial` is 10 bytes, `name` 27 and `open_device` (`openDevices`) 32. `lock` is the socket that holds
-- the lock, or -1.
pub record DeviceState : Type 0 where
  pub handle : ℕ
  pub open_device : List ℕ
  pub serial : List ℕ
  pub name : List ℕ
  pub brightness : ℕ
  pub temp_brightness : ℕ
  pub status : Status
  pub notify : Notify
  pub lock : ℤ

-- `lock[i] == socket`
abbrev pub is_socket : ℤ → ℕ → Bool
is_socket (pos n) socket = n == socket
is_socket (negsuc n) socket = false

-- `notify[i] |= …`
abbrev pub notify_name : DeviceState → DeviceState
notify_name d = record d { notify = record (d.notify) { name = true } }

abbrev pub notify_brightness : DeviceState → DeviceState
notify_brightness d = record d { notify = record (d.notify) { brightness = true } }

abbrev pub notify_temp_brightness : DeviceState → DeviceState
notify_temp_brightness d = record d { notify = record (d.notify) { temp_brightness = true } }

abbrev pub notify_status : DeviceState → DeviceState
notify_status d = record d { notify = record (d.notify) { status = true } }

-- instance_struct: a command for one device. `handleID` is the index at which the device stands.
-- A command is the memory of its line.
pub record Instance : Type 0 where
  pub commands : List (List ℕ)
  pub handle : ℕ
  pub id : ℕ
  pub selected_devices : ℕ
  pub output : ℕ

abbrev pub command_at : Instance → ℕ → List ℕ
command_at instance_data i = get_or (instance_data.commands) i []

-- `strcmp (instance -> commands[i], text) == 0`
abbrev pub is_command : Instance → ℕ → List ℕ → Bool
is_command instance_data i text = same_text (c_string (command_at instance_data i)) text

-- `commands[i][0] < 0x20`, on a signed `char`.
abbrev pub is_missing : Instance → ℕ → Bool
is_missing instance_data i =
    let c = get_or (command_at instance_data i) 0 0 in ltb c 0x20 || leb 128 c

module _ {m : Machine} where
  -- `send` of a whole literal.
  abbrev pub send_text : ℕ → List ℕ → M m (Unit {0})
  send_text socket text = send socket text (length text)

  -- A bracketed answer: the serial number of the device, and a text.
  unfoldable pub answer : Instance → DeviceState → ℕ → List ℕ → M m (Unit {0})
  answer instance_data d serial_length text = do
    send_text instance_data.output (codes "[")
    send instance_data.output d.serial serial_length
    send_text instance_data.output text
