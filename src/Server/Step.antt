-- ===== src/Server/Step.antt =====
-- How a command may change the record of its device: every change sets the bit that tells the clients.
use plasma_trim_cli.Base.{
  ℤ, pos, ℕ, ◌<◌, ◌≡◌, refl, ap, ◌∙◌, ◌≢◌, ◌⊎◌, inl, inr, Bool, true, false, List, arith, ◌==◌,
  if◌then◌else◌,
}
use plasma_trim_cli.Server.State.{
  Status, status_code, is_status, DeviceState, notify_name, notify_brightness,
  notify_temp_brightness, notify_status,
}
use plasma_trim_cli.Server.Run.{new_temp_brightness, settle}

-- A value that changes sets its bit, and a bit that is set stays set.
pub record IsTold {A : Type 0} (before after : A) (bit bit' : Bool) : Type 0 where
  pub told : (after ≡ before) ⊎ (bit' ≡ true)
  pub kept : bit ≡ true → bit' ≡ true

IsTold-same : {A : Type 0} (x : A) (b : Bool) → IsTold x x b b
IsTold-same x b = record { told = inl refl; kept = λ e. e }

IsTold-set : {A : Type 0} (x y : A) (b : Bool) → IsTold x y b true
IsTold-set x y b = record { told = inr refl; kept = λ _. refl }

IsTold-trans :
    {A : Type 0} {x y z : A} {a b c : Bool} → IsTold x y a b → IsTold y z b c → IsTold x z a c
IsTold-trans {A} {x} {y} {z} {a} {b} {c} p q = record {
  told = joined p.told q.told;
  kept = λ e. q.kept (p.kept e);
}
  where
    joined : (y ≡ x) ⊎ (b ≡ true) → (z ≡ y) ⊎ (c ≡ true) → (z ≡ x) ⊎ (c ≡ true)
    joined (inl e) (inl f) = inl (f ∙ e)
    joined (inr e) (inl f) = inr (q.kept e)
    joined e (inr f) = inr f

-- A device that is locked afterwards was locked by the same client before, or this client locks it.
abbrev pub LockFrom : ℕ → DeviceState → DeviceState → Type 0
LockFrom socket d d' =
    d'.status ≡ Status.lock
    → ((d.status ≡ Status.lock) × (d'.lock ≡ d.lock)) ⊎ (d'.lock ≡ pos socket)

pub record IsStep (socket : ℕ) (d d' : DeviceState) : Type 0 where
  pub handle : d'.handle ≡ d.handle
  pub open_device : d'.open_device ≡ d.open_device
  pub serial : d'.serial ≡ d.serial
  pub name : IsTold d.name d'.name d.notify.name d'.notify.name
  pub brightness : IsTold d.brightness d'.brightness d.notify.brightness d'.notify.brightness
  pub temp_brightness :
      IsTold d.temp_brightness d'.temp_brightness d.notify.temp_brightness d'.notify.temp_brightness
  pub status : IsTold d.status d'.status d.notify.status d'.notify.status
  pub lock : LockFrom socket d d'

pub IsStep-none : (socket : ℕ) (d : DeviceState) → IsStep socket d d
IsStep-none socket d = record {
  handle = refl;
  open_device = refl;
  serial = refl;
  name = IsTold-same _ _;
  brightness = IsTold-same _ _;
  temp_brightness = IsTold-same _ _;
  status = IsTold-same _ _;
  lock = λ e. inl (e, refl);
}

pub IsStep-trans :
    {socket : ℕ} {d e f : DeviceState} → IsStep socket d e → IsStep socket e f → IsStep socket d f
IsStep-trans {socket} {d} {e} {f} p q = record {
  handle = q.handle ∙ p.handle;
  open_device = q.open_device ∙ p.open_device;
  serial = q.serial ∙ p.serial;
  name = IsTold-trans p.name q.name;
  brightness = IsTold-trans p.brightness q.brightness;
  temp_brightness = IsTold-trans p.temp_brightness q.temp_brightness;
  status = IsTold-trans p.status q.status;
  lock = λ h. from (q.lock h);
}
  where
    from :
        ((e.status ≡ Status.lock) × (f.lock ≡ e.lock)) ⊎ (f.lock ≡ pos socket)
        → ((d.status ≡ Status.lock) × (f.lock ≡ d.lock)) ⊎ (f.lock ≡ pos socket)
    from (inr h) = inr h
    from (inl (h, same)) = elim (p.lock h) [
      | inl (h', same') ↦ inl (h', same ∙ same')
      | inr mine ↦ inr (same ∙ mine)
    ]

-- The steps that the commands are made of.
pub IsStep-lock :
    (socket : ℕ) (d : DeviceState)
    → IsStep socket d (notify_status (record d { status = Status.lock; lock = pos socket }))
IsStep-lock socket d = record {
  handle = refl;
  open_device = refl;
  serial = refl;
  name = IsTold-same _ _;
  brightness = IsTold-same _ _;
  temp_brightness = IsTold-same _ _;
  status = IsTold-set _ _ _;
  lock = λ _. inr refl;
}

pub IsStep-status :
    (socket : ℕ) (d : DeviceState) (status : Status) (lock : ℤ)
    → status ≢ Status.lock
    → IsStep socket d (notify_status (record d { status = status; lock = lock }))
IsStep-status socket d status lock h = record {
  handle = refl;
  open_device = refl;
  serial = refl;
  name = IsTold-same _ _;
  brightness = IsTold-same _ _;
  temp_brightness = IsTold-same _ _;
  status = IsTold-set _ _ _;
  lock = λ e. absurd (h e);
}

pub IsStep-name :
    (socket : ℕ) (d : DeviceState) (name : List ℕ)
    → IsStep socket d (notify_name (record d { name = name }))
IsStep-name socket d name = record {
  handle = refl;
  open_device = refl;
  serial = refl;
  name = IsTold-set _ _ _;
  brightness = IsTold-same _ _;
  temp_brightness = IsTold-same _ _;
  status = IsTold-same _ _;
  lock = λ e. inl (e, refl);
}

pub IsStep-brightness :
    (socket : ℕ) (d : DeviceState) (value : ℕ)
    → IsStep socket d (notify_brightness (record d { brightness = value }))
IsStep-brightness socket d value = record {
  handle = refl;
  open_device = refl;
  serial = refl;
  name = IsTold-same _ _;
  brightness = IsTold-set _ _ _;
  temp_brightness = IsTold-same _ _;
  status = IsTold-same _ _;
  lock = λ e. inl (e, refl);
}

IsStep-temp :
    (socket : ℕ) (d : DeviceState) (value : ℕ)
    → IsStep socket d (notify_temp_brightness (record d { temp_brightness = value }))
IsStep-temp socket d value = record {
  handle = refl;
  open_device = refl;
  serial = refl;
  name = IsTold-same _ _;
  brightness = IsTold-same _ _;
  temp_brightness = IsTold-set _ _ _;
  status = IsTold-same _ _;
  lock = λ e. inl (e, refl);
}

IsStep-if :
    (socket : ℕ) (b : Bool) (d e : DeviceState)
    → IsStep socket d e
    → IsStep socket d (if b then d else e)
IsStep-if socket true d e h = IsStep-none socket d
IsStep-if socket false d e h = h

pub IsStep-new_temp :
    (socket value : ℕ) (d : DeviceState) → IsStep socket d (new_temp_brightness value d)
IsStep-new_temp socket value d =
    IsStep-if socket (value == d.temp_brightness) d _ (IsStep-temp socket d value)

-- A status that is not locked.
pub no_lock : (status : Status) → status_code status < 4 → status ≢ Status.lock
no_lock status h e = let f : status_code status ≡ 4 = ap status_code e in omega (arith, f, h)

pub not_locked : (status : Status) → is_status status Status.lock ≡ false → status ≢ Status.lock
not_locked status h e =
    let f : is_status status Status.lock ≡ true = ap (λ t. is_status t Status.lock) e in cc

-- The owner is forgotten while the device is not locked.
pub IsStep-forget :
    (socket : ℕ) (d : DeviceState) (lock : ℤ)
    → d.status ≢ Status.lock
    → IsStep socket d (record d { lock = lock })
IsStep-forget socket d lock h = record {
  handle = refl;
  open_device = refl;
  serial = refl;
  name = IsTold-same _ _;
  brightness = IsTold-same _ _;
  temp_brightness = IsTold-same _ _;
  status = IsTold-same _ _;
  lock = λ e. absurd (h e);
}

pub IsStep-settle : (socket : ℕ) (d : DeviceState) → IsStep socket d (settle d)
IsStep-settle socket d =
    IsStep-if socket (is_status d.status Status.idle) d _
      (IsStep-status socket d Status.idle d.lock (no_lock Status.idle (omega arith)))
