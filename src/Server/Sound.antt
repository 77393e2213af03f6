-- ===== src/Server/Sound.antt =====
-- The table of devices: what is connected is open, and what is not is free.
use plasma_trim_cli.Base.{negsuc, ℕ, zero, suc, ◌≡◌, refl, true, false, replicate, All}
use plasma_trim_cli.Server.State.{Status, is_status, DeviceState}
use plasma_trim_cli.Server.Command.{no_device, is_open}

-- A device that is open is connected, and a place without a device is disconnected and free.
pub record IsSound (d : DeviceState) : Type 0 where
  pub opened : is_open d ≡ true → is_status d.status Status.disconnect ≡ false
  pub shut : is_open d ≡ false → (is_status d.status Status.disconnect ≡ true) × (d.lock ≡ negsuc 0)

-- The table that monitorDevices starts with is sound.
pub no_devices-IsSound : (n : ℕ) → All IsSound (replicate n no_device)
no_devices-IsSound zero = tt
no_devices-IsSound (suc n) =
    (record { opened = λ e. cc; shut = λ e. (refl, refl) }, no_devices-IsSound n)
