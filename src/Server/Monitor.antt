-- ===== src/Server/Monitor.antt =====
-- One round of the endless loop of monitorDevices: devices that are gone leave the table, and new ones
-- are opened and started.
use plasma_trim_cli.Base.{
  ℤ, negsuc, ℕ, suc, Bool, true, false, not, ◌&&◌, Option, none, some, List, [], ◌∷◌, ◌++◌, ltb,
  ◌==◌, if◌then◌else◌, length, take, replicate, codes, c_string, same_text,
}
use plasma_trim_cli.Decimal.{decimal_padded}
use plasma_trim_cli.Machine.{Machine, M, ◌>>=◌, ◌>>◌, pure, delay, printf, send}
use plasma_trim_cli.Device.{get_serial, start_comm, get_name, get_brightness, start}
use plasma_trim_cli.Server.State.{Status, DeviceState, no_notify, send_text}
use plasma_trim_cli.Server.Info.{to_clients, device_info}
use plasma_trim_cli.Server.Command.{no_device, is_open}

-- hid_enumerate, hid_open_path and hid_close of hidapi, on the outside of a machine. A path is a C
-- string without its terminator.
pub record Bus (m : Machine) : Type 0 where
  pub hid_enumerate : m.Outside → List (List ℕ)
  pub hid_open_path : List ℕ → m.Outside → Option ℕ × m.Outside
  pub hid_close : ℕ → m.Outside → m.Outside

-- `memset (s, 0, size); strcpy (s, text)`
abbrev pub fill : ℕ → List ℕ → List ℕ
fill size text = take size (c_string text ++ replicate size 0)

-- The loop over `currentDevices` for one open device: whether its path is listed, and the list without
-- it.
unfoldable pub claim_path : List ℕ → List (List ℕ) → Bool × List (List ℕ)
claim_path path [] = (false, [])
claim_path path (p ∷ ps) =
    let (listed, rest) = claim_path path ps in
    if same_text path p then (true, [] ∷ rest) else (listed, p ∷ rest)

-- `strcpy (currentDevices[…], path)` writes to 32 bytes.
abbrev pub all_fit : List (List ℕ) → Bool
all_fit [] = true
all_fit (p ∷ ps) = ltb (length p) 32 && all_fit ps

-- A device that is no longer available.
abbrev pub gone : DeviceState → DeviceState
gone d = record no_device { handle = d.handle }

abbrev pub removed_text : List ℕ
removed_text = codes "[removed "

module _ {m : Machine} where
  -- What the clients are told of a device that is gone.
  unfoldable pub tell_removed : DeviceState → ℕ → M m (Unit {0})
  tell_removed d fd = do send_text fd removed_text; send fd d.serial 8; send_text fd (codes "]\r\n")

  unfoldable pub tell_added : DeviceState → ℕ → M m (Unit {0})
  tell_added d fd = do
    send_text fd (codes "[added]\r\n")
    device_info fd d
    send_text fd (codes "[/added]\r\n")

  -- A device that was opened is asked for its data, started, and shown to the clients.
  unfoldable pub set_up : List ℤ → ℕ → List ℕ → M m DeviceState
  set_up sockets handle path = do
    start_comm handle
    serial ← get_serial handle
    name ← get_name handle
    brightness ← get_brightness handle
    start handle
    let d : DeviceState = record {
      handle = handle;
      open_device = fill 32 path;
      serial = fill 10 serial;
      name = fill 27 name;
      brightness = brightness;
      temp_brightness = brightness;
      status = Status.play;
      notify = no_notify;
      lock = negsuc 0;
    }
    to_clients sockets (tell_added d)
    pure d

module _ {m : Machine} (bus : Bus m) where
  unfoldable pub close_device : ℕ → M m (Unit {0})
  close_device handle w = some (tt, record w { outside = bus.hid_close handle w.outside })

  unfoldable pub open_path : List ℕ → M m (Option ℕ)
  open_path path w = some (
    (bus.hid_open_path path w.outside).0,
    record w { outside = (bus.hid_open_path path w.outside).1 },
  )

  -- `remove devices that are no longer around`
  unfoldable pub remove_devices :
      List ℤ → List DeviceState → List (List ℕ) → M m (List DeviceState × List (List ℕ))
  remove_devices sockets [] current = pure ([], current)
  remove_devices sockets (d ∷ ds) current =
      if not (is_open d)
      then (remove_devices sockets ds current >>= λ r. pure (d ∷ r.0, r.1))
      else (let claimed = claim_path (c_string d.open_device) current in
          if claimed.0
          then (remove_devices sockets ds claimed.1 >>= λ r. pure (d ∷ r.0, r.1))
          else (do
            to_clients sockets (tell_removed d)
            close_device d.handle
            r ← remove_devices sockets ds claimed.1
            pure (gone d ∷ r.0, r.1)))

  -- The first path of `currentDevices` that is new and can be opened: its handle, the path, and the
  -- list without it.
  unfoldable pub open_first : List (List ℕ) → M m (Option (ℕ × List ℕ) × List (List ℕ))
  open_first [] = pure (none, [])
  open_first (p ∷ ps) =
      if length p == 0
      then (open_first ps >>= λ r. pure (r.0, p ∷ r.1))
      else (open_path p >>= λ opened. elim opened [
        | some handle ↦ pure (some (handle, p), [] ∷ ps)
        | none ↦ (open_first ps >>= λ r. pure (r.0, p ∷ r.1))
      ])

  -- `add devices that are new`
  unfoldable pub add_devices : List ℤ → List DeviceState → List (List ℕ) → M m (List DeviceState)
  add_devices sockets [] current = pure []
  add_devices sockets (d ∷ ds) current =
      if is_open d
      then (add_devices sockets ds current >>= λ ds'. pure (d ∷ ds'))
      else (open_first current >>= λ r. elim r.0 [
        | none ↦ (add_devices sockets ds r.1 >>= λ ds'. pure (d ∷ ds'))
        | some (handle, path) ↦ do
          d' ← set_up sockets handle path
          ds' ← add_devices sockets ds r.1
          pure (d' ∷ ds')
      ])

  -- `numberDevices`
  abbrev pub count_open : List DeviceState → ℕ
  count_open [] = 0
  count_open (d ∷ ds) = if is_open d then suc (count_open ds) else count_open ds

  -- The round, for the sockets of the clients and the number of clients. A path that overflows its
  -- array has no meaning.
  unfoldable pub monitor_devices : List ℤ → ℕ → List DeviceState → M m (List DeviceState)
  monitor_devices sockets number_clients devices w =
      elim (all_fit (take 32 (bus.hid_enumerate w.outside))) [
        | false ↦ none
        | true ↦
            (do
              r ← remove_devices sockets devices (take 32 (bus.hid_enumerate w.outside))
              devices' ← add_devices sockets r.0 r.1
              printf (
                  (13 ∷ decimal_padded 2 (count_open devices'))
                  ++ (b'/'
                      ∷ (decimal_padded 2 32
                          ++ (codes " Devices - "
                              ++ (decimal_padded 2 number_clients
                                  ++ (b'/' ∷ (decimal_padded 2 20 ++ codes " Clients")))))))
              delay 1000
              pure devices')
              w
      ]
