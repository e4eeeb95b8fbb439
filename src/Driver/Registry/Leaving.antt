-- ===== src/Driver/Registry/Leaving.antt =====
-- What the removal of a driver leaves.
use docqos_old.Base.{ℕ, ◌≡◌, refl, inl, inr, none, List, [], ◌∷◌, ◌++◌, Bool-cases, filter, map}
use docqos_old.Driver.Registry.{
  Device, Event, disabled, State, is_bound, release_all, deregister_driver,
}

abbrev pub unbound : Device → Device
unbound v = record v { driver = none }

-- The calls of `disable` for the devices that a driver has.
abbrev pub disabling : ℕ → List Device → List Event
disabling d vs = map (λ v. disabled d v.address) (filter (λ v. is_bound d v.driver) vs)

release_all_lem : (d : ℕ) (vs : List Device) → release_all d vs ≡ (map unbound vs, disabling d vs)
unfolding release_all
release_all_lem d [] = refl
release_all_lem d (v ∷ vs) = elim (Bool-cases (is_bound d v.driver)) [
  | inl e ↦ rw (release_all_lem d vs, e) refl
  | inr e ↦ rw (release_all_lem d vs, e) refl
]

-- deregisterDriver disables exactly the devices of the driver, but takes the driver from every device,
-- those of other drivers included, and these are not disabled.
pub deregister_driver_lem :
    (d : ℕ) (s : State)
    → ((deregister_driver d s).devices ≡ map unbound s.devices)
      × ((deregister_driver d s).calls ≡ s.calls ++ disabling d s.devices)
unfolding deregister_driver
deregister_driver_lem d s = rw (release_all_lem d s.devices) (refl, refl)
