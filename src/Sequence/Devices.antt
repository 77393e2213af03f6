-- ===== src/Sequence/Devices.antt =====
-- Which column of a file for several devices a device plays.
use native.Mathlib.Nat.{mod-eq_of_lt, mod-eq-sub-mod}
use plasma_trim_cli.Base.{
  ℕ, zero, suc, ◌+◌, ◌-◌, ◌%◌, ◌≤◌, ◌<◌, ◌≡◌, refl, sym, ap, ◌∙◌, inl, inr, none, some, arith, ltb,
  lt→ltb, ltb→lt, ltb→ge, ge→ltb, Bool-cases,
}
use plasma_trim_cli.Sequence.Upload.{wrap_device}

wrap_device-more :
    (fuel device_num active_devices : ℕ)
    → active_devices < device_num
    → wrap_device (suc fuel) device_num active_devices
      ≡ wrap_device fuel (device_num - active_devices) active_devices
unfolding wrap_device
wrap_device-more fuel device_num active_devices h = rw (lt→ltb active_devices device_num h) refl

wrap_device-last :
    (fuel device_num active_devices : ℕ)
    → device_num ≤ active_devices
    → wrap_device (suc fuel) device_num active_devices ≡ some device_num
unfolding wrap_device
wrap_device-last fuel device_num active_devices h = rw (ge→ltb active_devices device_num h) refl

-- With at least one device in the file, upload takes for the device `id` the column `id` modulo the number
-- of devices, counted from 1: the loop ends, and one round more than `id` is enough.
pub wrap_device-mod :
    (fuel id active_devices : ℕ)
    → 1 ≤ active_devices
    → id < fuel
    → wrap_device fuel (id + 1) active_devices ≡ some (id % active_devices + 1)
wrap_device-mod zero id active_devices h k = absurd (omega (arith, k))
wrap_device-mod (suc fuel) id active_devices h k = elim (Bool-cases (ltb active_devices (id + 1))) [
  | inl more ↦
      let lt = ltb→lt active_devices (id + 1) more in
      let e : id + 1 - active_devices ≡ (id - active_devices) + 1 = omega (arith, lt) in
      let same : id % active_devices ≡ (id - active_devices) % active_devices =
        mod-eq-sub-mod (omega (arith, lt)) in
      wrap_device-more fuel (id + 1) active_devices lt
      ∙ ap (λ n. wrap_device fuel n active_devices) e
      ∙ wrap_device-mod fuel (id - active_devices) active_devices h (omega (arith, lt, h, k))
      ∙ ap (λ n. some (n + 1)) (sym same)
  | inr last ↦
      let le = ltb→ge active_devices (id + 1) last in
      let same : id % active_devices ≡ id = mod-eq_of_lt (omega (arith, le)) in
      wrap_device-last fuel (id + 1) active_devices le ∙ ap (λ n. some (n + 1)) (sym same)
]

-- Without a device in the file the loop never ends.
pub wrap_device_stuck : (fuel id : ℕ) → wrap_device fuel (id + 1) 0 ≡ none
unfolding wrap_device
wrap_device_stuck zero id = refl
wrap_device_stuck (suc fuel) id =
    wrap_device-more fuel (id + 1) 0 (omega arith)
    ∙ (let e : id + 1 - 0 ≡ id + 1 = omega arith in rw e (wrap_device_stuck fuel id))
