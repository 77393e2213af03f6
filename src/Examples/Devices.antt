-- ===== src/Examples/Devices.antt =====
-- Devices that answer, to try the theorems on.
use plasma_trim_cli.Base.{
  ℕ, ◌+◌, ◌-◌, ◌*◌, ◌^◌, min, max, ◌≡◌, refl, List, [], ◌∷◌, ◌++◌, arith, length, set, replicate,
  c_string,
}
use plasma_trim_cli.Machine.Laws.{Returned, IsSent}
use plasma_trim_cli.Machine.Queue.{echo-IsResponsive, echo_world}
use plasma_trim_cli.Examples.Checks.{bytes, text}
use plasma_trim_cli.Color.Digits.{AllBytes-get_or}
use plasma_trim_cli.Device.{
  print_serial, print_name, name_report, start, stop, set_brightness, set_active_slots, set_color,
  show_info,
}
use plasma_trim_cli.Device.Laws.{color_bytes, setters-IsSent}
use plasma_trim_cli.Device.Name.{printable, device_name, name_report_lem, print_name-name_report}
use plasma_trim_cli.Device.Serial.{hex_value, print_serial-hex_value}
use plasma_trim_cli.Device.Info.{Asked, show_info-asks}

abbrev red : List ℕ
red = 0xFF ∷ replicate 25 0

setters-IsSent_example :
    Returned (start 5 echo_world) (λ _ v. IsSent 5 (0x02 ∷ replicate 31 0) echo_world v)
    × Returned (stop 5 echo_world) (λ _ v. IsSent 5 (0x03 ∷ replicate 31 0) echo_world v)
    × Returned
        (set_brightness 5 80 echo_world)
        (λ _ v. IsSent 5 (0x0B ∷ 80 ∷ replicate 30 0) echo_world v)
    × Returned
        (set_active_slots 5 90 echo_world)
        (λ _ v. IsSent 5 (0x04 ∷ max 1 (min 90 76) ∷ replicate 30 0) echo_world v)
    × Returned (set_color 5 red 80 echo_world) (λ _ v. IsSent 5 (color_bytes red 80) echo_world v)
setters-IsSent_example = setters-IsSent echo-IsResponsive 5 red 80 90 echo_world

show_info-asks_example :
    Returned
      (show_info 5 echo_world)
      (λ _ v. Asked echo-IsResponsive 5 echo_world (0x01 ∷ 0x0C ∷ 0x0A ∷ 0x09 ∷ []) v)
show_info-asks_example = show_info-asks echo-IsResponsive 5 echo_world

-- A name with a character that is not printable.
abbrev porch : List ℕ
porch = b'P' ∷ 7 ∷ b'o' ∷ []

name_report_lem_example :
    name_report (porch ++ (0 ∷ 1 ∷ []))
    ≡ 0x08 ∷ (device_name porch ++ replicate (31 - length (device_name porch)) 0)
name_report_lem_example = name_report_lem porch (1 ∷ []) (text porch refl)

print_name-name_report_example :
    c_string (print_name (set (name_report (porch ++ (0 ∷ 1 ∷ []))) 0 0x09) 99) ≡ device_name porch
unfolding printable
print_name-name_report_example =
    print_name-name_report porch (1 ∷ []) 0x09 99 (text porch refl) (omega arith)

abbrev identity : List ℕ
identity = 0x0A ∷ 0x4E ∷ 0x3D ∷ 0x2C ∷ 0x1B ∷ []

print_serial-hex_value_example :
    (length (c_string (print_serial identity)) ≡ 8)
    × (hex_value (c_string (print_serial identity)) 0
        ≡ 0x4E + 2 ^ 8 * 0x3D + 2 ^ 16 * 0x2C + 2 ^ 24 * 0x1B)
print_serial-hex_value_example =
    print_serial-hex_value identity (AllBytes-get_or identity (bytes identity refl))
