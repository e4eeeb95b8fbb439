-- ===== src/Driver/Registry/Tests.antt =====
-- Runs of the device model.
use docqos_old.Base.{ℕ, ◌≡◌, refl, Bool, none, some, [], ◌∷◌, arith, ◌==◌}
use docqos_old.Driver.Registry.{enabled, State, wants, register_driver}
use docqos_old.Driver.Registry.Binding.{IsSettled, register_driver_lem}

-- A driver can work with the devices that have its number.
abbrev same_number : ℕ → ℕ → Bool
same_number d a = d == a

abbrev start : State
start = record {
  devices = record { address = 5; driver = none } ∷ record { address = 3; driver = some 3 } ∷ [];
  drivers = 3 ∷ [];
  calls = [];
}

start-IsSettled : IsSettled same_number start
start-IsSettled = record { settled = ((refl, tt), (refl, tt)) }

register_driver_lem_example :
    register_driver 3 same_number 5 start
    ≡ some (record {
      devices =
          record { address = 5; driver = some 5 } ∷ record { address = 3; driver = some 3 } ∷ [];
      drivers = 3 ∷ 5 ∷ [];
      calls = enabled 5 5 ∷ [];
    })
unfolding wants
register_driver_lem_example = register_driver_lem 3 same_number 5 start (omega arith)
