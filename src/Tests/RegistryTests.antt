-- ===== src/Tests/RegistryTests.antt =====
-- The registry without the order of its rows, at concrete rows.
use robot_fleet.Prelude.{ℕ, ◌≡◌, refl, String, Option, [], ◌∷◌}
use robot_fleet.Sql.{Conn}
use robot_fleet.Sql.Table.{contains}
use robot_fleet.Device.Store.{Tables, list_devices, get_device, get_by_serial, count_devices}
use robot_fleet.Device.Store.Validity.{IsValid}
use robot_fleet.Device.Store.Registry.Reads.{registry_of, same_registry}
use robot_fleet.Tests.Fixtures.{device, tables, registry}

-- the same devices, stored in the other order
abbrev reordered : Conn Tables
reordered = record registry {
  tables = record tables {
    devices = device "d1" "SN-8" "suspended" ∷ device "d9" "SN-9" "active" ∷ [];
  };
}

registry-IsValid : IsValid registry.tables
unfolding contains
registry-IsValid = record {
  ids = (refl, (refl, tt));
  serials = (refl, (refl, tt));
  claims = (refl, (refl, tt));
  entries = (refl, (refl, tt));
}

reordered-IsValid : IsValid reordered.tables
unfolding contains
reordered-IsValid = record {
  ids = (refl, (refl, tt));
  serials = (refl, (refl, tt));
  claims = (refl, (refl, tt));
  entries = (refl, (refl, tt));
}

same_registry_example :
    ((registry_of registry.tables registry-IsValid ≡ registry_of reordered.tables reordered-IsValid)
      → ((model status : Option String) (limit : ℕ) (cursor : Option String)
          → (list_devices model status limit cursor registry).0
            ≡ (list_devices model status limit cursor reordered).0)
        × ((id : String) → (get_device id registry).0 ≡ (get_device id reordered).0)
        × ((serial : String)
            → (get_by_serial serial registry).0 ≡ (get_by_serial serial reordered).0)
        × ((count_devices registry).0 ≡ (count_devices reordered).0))
    × (((model status : Option String) (limit : ℕ) (cursor : Option String)
          → (list_devices model status limit cursor registry).0
            ≡ (list_devices model status limit cursor reordered).0)
        → registry_of registry.tables registry-IsValid
          ≡ registry_of reordered.tables reordered-IsValid)
same_registry_example =
    same_registry registry reordered refl refl registry-IsValid reordered-IsValid
