-- ===== src/Driver/Registry/Binding.antt =====
-- What the registration of devices and drivers binds.
use docqos_old.Base.{
  ℕ, zero, suc, ◌<◌, ◌≡◌, refl, ap, sym, inl, inr, Bool, true, false, Option, none, some, List, [],
  ◌∷◌, ◌++◌, arith, if◌then◌else◌, Bool-cases, Option-cases, All, filter, length, map,
}
use docqos_old.Driver.Registry.{
  Device, Event, enabled, State, first_driver, attach, register_device, wants, bind_first, bind_all,
  register_driver,
}

append-nil {ℓ} : {A : Type ℓ} (xs : List A) → xs ++ [] ≡ xs
append-nil [] = refl
append-nil (x ∷ xs) = ap (λ l. x ∷ l) (append-nil xs)

append_assoc {ℓ} : {A : Type ℓ} (xs ys zs : List A) → (xs ++ ys) ++ zs ≡ xs ++ (ys ++ zs)
append_assoc [] ys zs = refl
append_assoc (x ∷ xs) ys zs = ap (λ l. x ∷ l) (append_assoc xs ys zs)

All-snoc {ℓ} :
    {A : Type ℓ} (P : A → Type 0) (xs : List A) (y : A) → All P xs → P y → All P (xs ++ (y ∷ []))
All-snoc P [] y ps p = (p, tt)
All-snoc P (x ∷ xs) y ps p = (ps.0, All-snoc P xs y ps.1 p)

-- The device with its driver set, if it had none and the driver can work with it.
abbrev pub bound : (ℕ → ℕ → Bool) → ℕ → Device → Device
bound probe d v = if wants probe d v then record v { driver = some d } else v

-- The calls of `enable` for those devices.
abbrev pub enabling : (ℕ → ℕ → Bool) → ℕ → List Device → List Event
enabling probe d vs = map (λ v. enabled d v.address) (filter (wants probe d) vs)

module _ (probe : ℕ → ℕ → Bool) (d : ℕ) where
  bind_first-skip :
      (pre vs : List Device)
      → All (λ v. wants probe d v ≡ false) pre
      → bind_first probe d (pre ++ vs)
        ≡ elim (bind_first probe d vs) [ none ↦ none | some (a, ws) ↦ some (a, pre ++ ws) ]
  unfolding bind_first
  bind_first-skip [] vs h = elim (Option-cases (bind_first probe d vs)) [
    | inl e ↦ rw e refl
    | inr (p, e) ↦ rw e refl
  ]
  bind_first-skip (v ∷ pre) vs h = elim (Option-cases (bind_first probe d vs)) [
    | inl e ↦ rw (h.0, bind_first-skip pre vs h.1, e) refl
    | inr (p, e) ↦ rw (h.0, bind_first-skip pre vs h.1, e) refl
  ]

  bound-wants : (v : Device) → wants probe d (record v { driver = some d }) ≡ false
  unfolding wants
  bound-wants v = refl

  bind_all-lem :
      (fuel : ℕ) (pre vs : List Device) (drivers : List ℕ) (calls : List Event)
      → All (λ v. wants probe d v ≡ false) pre
      → length vs < fuel
      → bind_all fuel probe d (record { devices = pre ++ vs; drivers = drivers; calls = calls })
        ≡ some (record {
          devices = pre ++ map (bound probe d) vs;
          drivers = drivers;
          calls = calls ++ enabling probe d vs;
        })
  unfolding bind_all bind_first
  bind_all-lem zero pre [] drivers calls h enough = absurd (omega arith)
  bind_all-lem (suc fuel) pre [] drivers calls h enough =
      rw (bind_all, bind_first-skip pre [] h, append-nil calls) refl
  bind_all-lem zero pre (v ∷ vs) drivers calls h enough = absurd (omega arith)
  bind_all-lem (suc fuel) pre (v ∷ vs) drivers calls h enough =
      elim (Bool-cases (wants probe d v)) [
        | inl free ↦
            let v' : Device = record v { driver = some d } in
            let shift = λ (ws : List Device). append_assoc pre (v' ∷ []) ws in
            let ih =
              bind_all-lem fuel (pre ++ (v' ∷ [])) vs drivers (calls ++ (enabled d v.address ∷ []))
                (All-snoc _ pre v' h (bound-wants v)) (omega arith) in
            rw
              (
                bind_all,
                bind_first-skip pre (v ∷ vs) h,
                free,
                sym (shift vs),
                ih,
                shift (map (bound probe d) vs),
                append_assoc calls (enabled d v.address ∷ []) (enabling probe d vs),
              )
              refl
        | inr kept ↦
            let shift = λ (ws : List Device). append_assoc pre (v ∷ []) ws in
            let ih =
              bind_all-lem (suc fuel) (pre ++ (v ∷ [])) vs drivers calls (All-snoc _ pre v h kept)
                (omega arith) in
            rw (kept, sym (shift vs), sym (shift (map (bound probe d) vs))) ih
      ]

-- registerDriver ends within one pass for each device and one more. It puts the driver behind the others
-- and binds to it exactly those devices that had no driver and that it can work with, calling `enable`
-- once for each, in the order of the list; the other devices stay as they are.
pub register_driver_lem :
    (fuel : ℕ) (probe : ℕ → ℕ → Bool) (d : ℕ) (s : State)
    → length s.devices < fuel
    → register_driver fuel probe d s
      ≡ some (record {
        devices = map (bound probe d) s.devices;
        drivers = s.drivers ++ (d ∷ []);
        calls = s.calls ++ enabling probe d s.devices;
      })
unfolding register_driver
register_driver_lem fuel probe d s enough =
    bind_all-lem probe d fuel [] s.devices (s.drivers ++ (d ∷ [])) s.calls tt enough

-- No device waits for a driver that could work with it, and a device's driver is one that can.
abbrev pub Settled : (ℕ → ℕ → Bool) → List ℕ → Device → Type 0
Settled probe drivers v = elim v.driver [
  | none ↦ All (λ d. probe d v.address ≡ false) drivers
  | some d ↦ probe d v.address ≡ true
]

pub record IsSettled (probe : ℕ → ℕ → Bool) (s : State) : Type 0 where
  pub settled : All (Settled probe s.drivers) s.devices

bound-Settled :
    (probe : ℕ → ℕ → Bool) (d : ℕ) (drivers : List ℕ) (a : ℕ) (o : Option ℕ)
    → Settled probe drivers (record { address = a; driver = o })
    → Settled probe (drivers ++ (d ∷ [])) (bound probe d (record { address = a; driver = o }))
unfolding wants
bound-Settled probe d drivers a (some e) h = h
bound-Settled probe d drivers a none h = with_answer (probe d a) refl
  where
    with_answer :
        (b : Bool)
        → probe d a ≡ b
        → Settled probe (drivers ++ (d ∷ [])) (
            if b
            then record { address = a; driver = some d }
            else record { address = a; driver = none })
    with_answer true can = can
    with_answer false cannot = All-snoc _ drivers d h cannot

map-Settled :
    (probe : ℕ → ℕ → Bool) (d : ℕ) (drivers : List ℕ) (vs : List Device)
    → All (Settled probe drivers) vs
    → All (Settled probe (drivers ++ (d ∷ []))) (map (bound probe d) vs)
map-Settled probe d drivers [] h = tt
map-Settled probe d drivers (v ∷ vs) h =
    (bound-Settled probe d drivers v.address v.driver h.0, map-Settled probe d drivers vs h.1)

-- After registerDriver no device waits for a driver that could work with it, if none did before.
pub register_driver-IsSettled :
    (fuel : ℕ) (probe : ℕ → ℕ → Bool) (d : ℕ) (s : State)
    → length s.devices < fuel
    → IsSettled probe s
    → (s' : State) × (register_driver fuel probe d s ≡ some s') × IsSettled probe s'
register_driver-IsSettled fuel probe d s enough v = (
  _,
  register_driver_lem fuel probe d s enough,
  record { settled = map-Settled probe d s.drivers s.devices v.settled },
)

passed_over-Settled :
    (probe : ℕ → ℕ → Bool) (a d : ℕ) (ds : List ℕ) (o : Option ℕ)
    → probe d a ≡ false
    → Settled probe ds (record { address = a; driver = o })
    → Settled probe (d ∷ ds) (record { address = a; driver = o })
passed_over-Settled probe a d ds none cannot h = (cannot, h)
passed_over-Settled probe a d ds (some e) cannot h = h

first_driver-Settled :
    (probe : ℕ → ℕ → Bool) (a : ℕ) (ds : List ℕ)
    → Settled probe ds (record { address = a; driver = first_driver probe a ds })
unfolding first_driver
first_driver-Settled probe a [] = tt
first_driver-Settled probe a (d ∷ ds) = elim (Bool-cases (probe d a)) [
  | inl can ↦ rw can can
  | inr cannot ↦ rw cannot (
      passed_over-Settled probe a d ds (first_driver probe a ds) cannot
        (first_driver-Settled probe a ds))
]

attach-IsSettled :
    (probe : ℕ → ℕ → Bool) (enable : ℕ → ℕ → ℕ) (a : ℕ) (o : Option ℕ) (s : State)
    → IsSettled probe s
    → Settled probe s.drivers (record { address = a; driver = o })
    → IsSettled probe (attach enable a o s).1
unfolding attach
attach-IsSettled probe enable a none s v h = record { settled = All-snoc _ s.devices _ v.settled h }
attach-IsSettled probe enable a (some d) s v h = record {
  settled = All-snoc _ s.devices _ v.settled h;
}

-- After registerDevice no device waits for a driver that could work with it, if none did before; the new
-- device has a driver that can work with it, or there is none that could.
pub register_device-IsSettled :
    (probe : ℕ → ℕ → Bool) (enable : ℕ → ℕ → ℕ) (a : ℕ) (s : State)
    → IsSettled probe s
    → IsSettled probe (register_device probe enable a s).1
unfolding register_device
register_device-IsSettled probe enable a s v =
    attach-IsSettled probe enable a (first_driver probe a s.drivers) s v
      (first_driver-Settled probe a s.drivers)
