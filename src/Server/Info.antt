-- ===== src/Server/Info.antt =====
-- What the server tells its clients: clientWelcome, connectedDevices, deviceInfo, statusInfo, and one
-- round of the loop of sendNotifications.
use plasma_trim_cli.Base.{
  ℤ, pos, pos_part, ltb_ℤ, ℕ, Bool, true, false, not, ◌&&◌, ◌||◌, List, [], ◌∷◌, ◌++◌, ltb, ◌==◌,
  if◌then◌else◌, length, get_or, take, codes, c_string,
}
use plasma_trim_cli.Decimal.{decimal_padded}
use plasma_trim_cli.Machine.{Machine, M, ◌>>=◌, ◌>>◌, pure, when, delay, send}
use plasma_trim_cli.Server.State.{
  Status, status_code, is_status, Notify, no_notify, DeviceState, send_text,
}

-- `notify[i] != 0`
abbrev pub is_notified : Notify → Bool
is_notified n = n.name || (n.brightness || (n.temp_brightness || n.status))

abbrev pub status_text : Status → List ℕ
status_text Status.disconnect = []
status_text Status.play = codes "Playing"
status_text Status.idle = codes "Stopped"
status_text Status.stream = codes "Software Controlled"
status_text Status.lock = codes "Locked to Client"

module _ {m : Machine} where
  -- `snprintf (s, 4, "%03d", value); send (fd, s, 3, 0)`
  abbrev pub send_percent : ℕ → ℕ → M m (Unit {0})
  send_percent fd value = send fd (take 3 (decimal_padded 3 value)) 3

  unfoldable pub status_info : ℕ → DeviceState → M m (Unit {0})
  status_info fd d = do
    send_text fd (codes "Status: ")
    when (not (is_status d.status Status.disconnect)) (send_text fd (status_text d.status))
    send_text fd (codes "\r\n")

  unfoldable pub device_info : ℕ → DeviceState → M m (Unit {0})
  device_info fd d = when (not (get_or d.serial 0 0 == 0)) (do
    send_text fd (codes "Serial: ")
    send fd d.serial 8
    send_text fd (codes "\r\nName: ")
    send fd d.name (length (c_string d.name))
    send_text fd (codes "\r\n")
    when (ltb 0 (status_code d.status)) (do
      send_text fd (codes "Saved Brightness: ")
      send_percent fd d.brightness
      send_text fd (codes "%\r\n")
      send_text fd (codes "Temp Brightness: ")
      send_percent fd d.temp_brightness
      send_text fd (codes "%\r\n")
      status_info fd d))

  -- `snprintf (s, 3, "%02d", …)` of the two limits, 32 devices and 20 clients.
  unfoldable pub client_welcome : ℕ → M m (Unit {0})
  client_welcome fd = do
    send_text fd (codes "[about]\r\n")
    send_text fd (codes "PlasmaTrim Network Server\r\n")
    send_text fd (codes "version 0.1.0\r\n")
    send_text fd (codes "max devices ")
    send fd (decimal_padded 2 32) 2
    send_text fd (codes "\r\n")
    send_text fd (codes "max clients ")
    send fd (decimal_padded 2 20) 2
    send_text fd (codes "\r\n")
    send_text fd (codes "[/about]\r\n")

  -- The loop of connectedDevices; the flag is `provideSeperator`.
  unfoldable pub list_devices : ℕ → Bool → List DeviceState → M m (Unit {0})
  list_devices fd separator [] = pure tt
  list_devices fd separator (d ∷ ds) =
      if is_status d.status Status.disconnect then list_devices fd separator ds else (do
        when separator (send_text fd (codes "---\r\n"))
        device_info fd d
        list_devices fd true ds)

  -- The last line is sent with its terminator.
  unfoldable pub connected_devices : ℕ → List DeviceState → M m (Unit {0})
  connected_devices fd devices = do
    send_text fd (codes "[devices]\r\n")
    list_devices fd false devices
    send fd (codes "[/devices]\r\n" ++ (0 ∷ [])) 13

  -- The record of one change, for one client.
  unfoldable pub send_update : DeviceState → ℕ → M m (Unit {0})
  send_update d fd = do
    send_text fd (codes "[update]\r\n")
    send_text fd (codes "Serial: ")
    send fd d.serial 8
    send_text fd (codes "\r\n")
    when d.notify.name (do
      send_text fd (codes "Name: ")
      send fd d.name (length (c_string d.name))
      send_text fd (codes "\r\n"))
    when d.notify.brightness (do
      send_text fd (codes "Saved Brightness: ")
      send_percent fd d.brightness
      send_text fd (codes "%")
      send_text fd (codes "\r\n"))
    when d.notify.temp_brightness (do
      send_text fd (codes "Temp Brightness: ")
      send_percent fd d.temp_brightness
      send_text fd (codes "%")
      send_text fd (codes "\r\n"))
    when d.notify.status (status_info fd d)
    send_text fd (codes "[/update]\r\n")

  -- `for (j = 0; j < MAX_CLIENTS; j++) if (socket_id[j] > 0) …`
  unfoldable pub to_clients : List ℤ → (ℕ → M m (Unit {0})) → M m (Unit {0})
  to_clients [] f = pure tt
  to_clients (socket ∷ sockets) f =
      if ltb_ℤ (pos 0) socket
      then (do f (pos_part socket); to_clients sockets f)
      else to_clients sockets f

  unfoldable pub notify_devices : List ℤ → List DeviceState → M m (List DeviceState)
  notify_devices sockets [] = pure []
  notify_devices sockets (d ∷ ds) =
      if not (is_status d.status Status.disconnect) && is_notified d.notify
      then (do
        to_clients sockets (send_update d)
        ds' ← notify_devices sockets ds
        pure (record d { notify = no_notify } ∷ ds'))
      else (notify_devices sockets ds >>= λ ds'. pure (d ∷ ds'))

  -- One round of the endless loop of sendNotifications.
  unfoldable pub send_notifications : List ℤ → List DeviceState → M m (List DeviceState)
  send_notifications sockets devices = do
    devices' ← notify_devices sockets devices
    delay 100
    pure devices'
