-- ===== src/Server/Run.antt =====
-- runThread: one command of a client for one device.
mod Files
unfoldable pub use Files.*
use plasma_trim_cli.Base.{
  pos, negsuc, ℕ, ◌*◌, Bool, true, not, ◌||◌, List, ◌==◌, if◌then◌else◌, length, get_or, codes,
  c_string,
}
use plasma_trim_cli.Decimal.{atoi}
use plasma_trim_cli.Color.{make_color, make_human_color}
use plasma_trim_cli.Machine.{Machine, M, ◌>>=◌, ◌>>◌, pure, stuck, or_stuck, when, delay, send}
use plasma_trim_cli.Device.{
  make_brightness, start, stop, set_name, get_name, set_brightness, get_brightness, set_color,
  get_color,
}
use plasma_trim_cli.Timing.{fade}
use plasma_trim_cli.Server.State.{
  Status, is_status, DeviceState, is_socket, notify_name, notify_brightness, notify_temp_brightness,
  notify_status, Instance, command_at, is_command, is_missing, send_text, answer,
}

-- `makeBrightness (atoi (instance -> commands[i]))`
abbrev pub brightness_at : Instance → ℕ → ℕ
brightness_at instance_data i = make_brightness (atoi (c_string (command_at instance_data i)))

-- A new temporary brightness, if it is different.
abbrev pub new_temp_brightness : ℕ → DeviceState → DeviceState
new_temp_brightness value d =
    if value == d.temp_brightness
    then d
    else notify_temp_brightness (record d { temp_brightness = value })

-- `if (status[…] != IDLE) …`
abbrev pub settle : DeviceState → DeviceState
settle d =
    if is_status d.status Status.idle then d else notify_status (record d { status = Status.idle })

-- Not locked, or locked by this client.
abbrev pub is_permitted : Instance → DeviceState → Bool
is_permitted instance_data d =
    not (is_status d.status Status.lock) || is_socket d.lock instance_data.output

module _ {m : Machine} where
  unfoldable pub lock_command : Instance → DeviceState → M m DeviceState
  lock_command instance_data d =
      if is_status d.status Status.lock
      then (do answer instance_data d 10 (codes " already locked]\r\n"); pure d)
      else pure (notify_status (record d { status = Status.lock; lock = pos instance_data.output }))

  -- The device is stopped, and nobody holds it.
  unfoldable pub release : Instance → DeviceState → M m DeviceState
  release instance_data d = do
    stop instance_data.handle
    pure (notify_status (record d { status = Status.idle; lock = negsuc 0 }))

  unfoldable pub unlock_command : Instance → DeviceState → M m DeviceState
  unlock_command instance_data d =
      if is_status d.status Status.lock
      then release instance_data d
      else (do answer instance_data d 10 (codes " not locked]\r\n"); pure d)

  unfoldable pub start_command : Instance → DeviceState → M m DeviceState
  start_command instance_data d = do
    start instance_data.handle
    pure (notify_status (record d { status = Status.play }))

  unfoldable pub stop_command : Instance → DeviceState → M m DeviceState
  stop_command instance_data d = do
    stop instance_data.handle
    pure (notify_status (record d { status = Status.idle }))

  unfoldable pub name_command : Instance → DeviceState → M m DeviceState
  name_command instance_data d = do
    set_name instance_data.handle (command_at instance_data 2)
    name ← get_name instance_data.handle
    pure (notify_name (record d { name = name }))

  -- The colour that is shown is shown again, with the temporary brightness, if the device is idle.
  unfoldable pub refresh : Instance → DeviceState → M m DeviceState
  refresh instance_data d =
      if is_status d.status Status.idle
      then (do
        shown ← get_color instance_data.handle
        color ← or_stuck (make_color shown true)
        set_color instance_data.handle color.0 d.temp_brightness
        pure d)
      else pure d

  unfoldable pub temp_brightness_command : Instance → DeviceState → M m DeviceState
  temp_brightness_command instance_data d =
      if brightness_at instance_data 3 == d.temp_brightness
      then pure d
      else refresh instance_data (new_temp_brightness (brightness_at instance_data 3) d)

  unfoldable pub save_brightness_command : Instance → DeviceState → M m DeviceState
  save_brightness_command instance_data d =
      if d.temp_brightness == d.brightness then pure d else (do
        set_brightness instance_data.handle d.temp_brightness
        pure (notify_brightness (record d { brightness = d.temp_brightness })))

  unfoldable pub set_brightness_command : Instance → DeviceState → M m DeviceState
  set_brightness_command instance_data d =
      if brightness_at instance_data 2 == d.brightness then pure d else (do
        set_brightness instance_data.handle (brightness_at instance_data 2)
        saved ← get_brightness instance_data.handle
        refresh instance_data
            (new_temp_brightness saved (notify_brightness (record d { brightness = saved }))))

  unfoldable pub brightness_command : Instance → DeviceState → M m DeviceState
  brightness_command instance_data d =
      if is_command instance_data 2 (codes "temp")
      then temp_brightness_command instance_data d
      else if is_command instance_data 2 (codes "reset")
      then pure (new_temp_brightness d.brightness d)
      else if is_command instance_data 2 (codes "save")
      then save_brightness_command instance_data d
      else if is_missing instance_data 3
      then set_brightness_command instance_data d
      else pure d

  -- The end of the `color` command, on the memory of the colour.
  unfoldable pub show_color : Instance → DeviceState → List ℕ → M m DeviceState
  show_color instance_data d text = do
    color ← or_stuck (make_color text true)
    set_color instance_data.handle color.0 d.temp_brightness
    pure (settle d)

  unfoldable pub color_command : Instance → DeviceState → M m DeviceState
  color_command instance_data d =
      if is_missing instance_data 2
      then (do
        color ← or_stuck (make_color (command_at instance_data 2) true)
        set_color instance_data.handle color.0 d.temp_brightness
        answer instance_data d 10 (codes " color ")
        shown ← get_color instance_data.handle
        send instance_data.output (make_human_color shown) 55
        send_text instance_data.output (codes "]\r\n")
        when (is_status d.status Status.play) (start instance_data.handle)
        show_color instance_data d color.1)
      else if get_or (command_at instance_data 3) 0 0 == 0
      then show_color instance_data d (command_at instance_data 2)
      else show_color instance_data (new_temp_brightness (brightness_at instance_data 3) d)
          (command_at instance_data 2)

  unfoldable pub fade_command : (ℕ → ℕ → ℕ → ℕ → ℕ) → Instance → DeviceState → M m DeviceState
  fade_command shade instance_data d = do
    let d' =
        if get_or (command_at instance_data 4) 0 0 == 0
        then d
        else new_temp_brightness (brightness_at instance_data 4) d
    color ← or_stuck (make_color (command_at instance_data 2) true)
    fade shade instance_data.handle color.0 (command_at instance_data 3) d'.temp_brightness
    pure (settle d')

  unfoldable pub unknown_command : Instance → DeviceState → M m DeviceState
  unknown_command instance_data d = do
    send_text instance_data.output (codes "[unknown command ")
    send instance_data.output (command_at instance_data 1)
        (length (c_string (command_at instance_data 1)))
    send_text instance_data.output (codes "]\r\n")
    pure d

  -- The commands of a client that the device is not locked against.
  unfoldable pub permitted_command : (ℕ → ℕ → ℕ → ℕ → ℕ) → Instance → DeviceState → M m DeviceState
  permitted_command shade instance_data d =
      if is_command instance_data 1 (codes "lock")
      then lock_command instance_data d
      else if is_command instance_data 1 (codes "unlock")
      then unlock_command instance_data d
      else if is_command instance_data 1 (codes "start")
      then start_command instance_data d
      else if is_command instance_data 1 (codes "stop")
      then stop_command instance_data d
      else if is_command instance_data 1 (codes "name")
      then name_command instance_data d
      else if is_command instance_data 1 (codes "brightness")
      then brightness_command instance_data d
      else if is_command instance_data 1 (codes "color")
      then color_command instance_data d
      else if is_command instance_data 1 (codes "fade")
      then fade_command shade instance_data d
      else if is_upload instance_data
      then upload_command instance_data d
      else if is_download instance_data
      then download_command instance_data d
      else unknown_command instance_data d

  unfoldable pub force_unlock_command : Instance → DeviceState → M m DeviceState
  force_unlock_command instance_data d =
      if is_status d.status Status.lock then release instance_data d else (do
        answer instance_data d 10 (codes " not locked]\r\n")
        pure (record d { lock = negsuc 0 }))

  unfoldable pub run_thread : (ℕ → ℕ → ℕ → ℕ → ℕ) → Instance → DeviceState → M m DeviceState
  run_thread shade instance_data d =
      if is_permitted instance_data d
      then permitted_command shade instance_data d
      else if is_command instance_data 1 (codes "force unlock")
      then force_unlock_command instance_data d
      else (do answer instance_data d 10 (codes " permission denied]\r\n"); pure d)
