-- ===== src/Driver/Registry.antt =====
-- src/driver/driver.c: the lists of devices and drivers. A device or a driver is its address. What
-- `probe` answers and `enable` returns are arguments, `probe` as the test of its result with 0; the calls
-- of `enable` and `disable` are recorded in order. `enable` runs without the lock, but no other call of
-- this file is taken to come in between.
pub mod Binding
pub mod Leaving
mod Tests
use docqos_old.Base.{
  ℕ, zero, suc, Bool, true, false, ◌&&◌, Option, none, some, List, [], ◌∷◌, ◌++◌, ◌==◌,
  if◌then◌else◌,
}

-- `struct Device`; the field `driver` is `none` for the null pointer.
pub record Device : Type 0 where
  pub address : ℕ
  pub driver : Option ℕ

-- A call of a driver's `enable` or `disable`, with the driver and the device.
pub data Event : Type 0 where
  enabled : ℕ → ℕ → Event
  disabled : ℕ → ℕ → Event

-- `devices`, `drivers`, and the calls so far.
pub record State : Type 0 where
  pub devices : List Device
  pub drivers : List ℕ
  pub calls : List Event

-- The loop of registerDevice: the first driver that can work with the device.
pub first_driver : (ℕ → ℕ → Bool) → ℕ → List ℕ → Option ℕ
first_driver probe device [] = none
first_driver probe device (d ∷ ds) =
    let rest = first_driver probe device ds in if probe d device then some d else rest

-- The end of registerDevice, on the driver found.
pub attach : (ℕ → ℕ → ℕ) → ℕ → Option ℕ → State → ℕ × State
attach enable device none s =
    (1, record s { devices = s.devices ++ (record { address = device; driver = none } ∷ []) })
attach enable device (some d) s = (
  enable d device,
  record s {
    devices = s.devices ++ (record { address = device; driver = some d } ∷ []);
    calls = s.calls ++ (enabled d device ∷ []);
  },
)

-- `registerDevice`
pub register_device : (ℕ → ℕ → Bool) → (ℕ → ℕ → ℕ) → ℕ → State → ℕ × State
register_device probe enable device s = attach enable device (first_driver probe device s.drivers) s

-- `!device->driver`
abbrev pub is_free : Option ℕ → Bool
is_free none = true
is_free (some d) = false

-- The test of the loop of registerDriver.
pub wants : (ℕ → ℕ → Bool) → ℕ → Device → Bool
wants probe d v = is_free v.driver && probe d v.address

-- One pass of the loop of registerDriver: the device that it binds, and the list after it.
pub bind_first : (ℕ → ℕ → Bool) → ℕ → List Device → Option (ℕ × List Device)
bind_first probe d [] = none
bind_first probe d (v ∷ vs) =
    let rest = bind_first probe d vs in
    if wants probe d v
    then some (v.address, record v { driver = some d } ∷ vs)
    else elim rest [ none ↦ none | some (a, ws) ↦ some (a, v ∷ ws) ]

-- The passes, with fuel: each but the last ends with `goto retry`.
pub bind_all : ℕ → (ℕ → ℕ → Bool) → ℕ → State → Option State
bind_all zero probe d s = none
bind_all (suc fuel) probe d s = elim (bind_first probe d s.devices) [
  | none ↦ some s
  | some (a, vs) ↦
      bind_all fuel probe d (record s { devices = vs; calls = s.calls ++ (enabled d a ∷ []) })
]

-- `registerDriver`
pub register_driver : ℕ → (ℕ → ℕ → Bool) → ℕ → State → Option State
register_driver fuel probe d s =
    bind_all fuel probe d (record s { drivers = s.drivers ++ (d ∷ []) })

-- `listDelete` of a driver.
pub drop_driver : ℕ → List ℕ → List ℕ
drop_driver d [] = []
drop_driver d (e ∷ es) = let rest = drop_driver d es in if e == d then es else e ∷ rest

-- `device->driver == driver`
abbrev pub is_bound : ℕ → Option ℕ → Bool
is_bound d none = false
is_bound d (some e) = e == d

-- The loop of deregisterDriver: the devices after it, and the calls of `disable`.
pub release_all : ℕ → List Device → List Device × List Event
release_all d [] = ([], [])
release_all d (v ∷ vs) =
    let (ws, es) = release_all d vs in
    (record v { driver = none } ∷ ws, if is_bound d v.driver then disabled d v.address ∷ es else es)

-- `deregisterDriver`
pub deregister_driver : ℕ → State → State
deregister_driver d s =
    let (vs, es) = release_all d s.devices in
    record { devices = vs; drivers = drop_driver d s.drivers; calls = s.calls ++ es }

-- `deregisterDevice`, of the device `v` on the list.
pub drop_device : ℕ → List Device → List Device
drop_device a [] = []
drop_device a (v ∷ vs) = let rest = drop_device a vs in if v.address == a then vs else v ∷ rest

pub disable_call : Device → List Event
disable_call v = elim v.driver [ none ↦ [] | some d ↦ disabled d v.address ∷ [] ]

pub deregister_device : Device → State → State
deregister_device v s = record s {
  devices = drop_device v.address s.devices;
  calls = s.calls ++ disable_call v;
}
