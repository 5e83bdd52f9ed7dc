-- ===== src/Device/Startup.antt =====
-- Phase 0 of `main` in device-management-service/src/main.rs: the factory manifest from the environment
-- variable FACTORY_MANIFEST, and the count of the devices that are there already. Separators are given
-- by their code points.
pub mod Manifest
pub mod Seeding
pub mod Ports
use robot_fleet.Prelude.{
  ℕ, ◌+◌, ◌%◌, ◌^◌, String, Option, none, some, List, [], ◌∷◌, map, not, select, ok, err, Result,
}
use robot_fleet.Prelude.Split.{split, splitn, trim, is_empty}
use robot_fleet.Sql.{Conn}
use robot_fleet.Device.Error.{Error}
use robot_fleet.Device.Store.{Tables, seed_manifest, count_devices}

pub record Entry : Type 0 where
  pub serial : String
  pub token : String
  pub model : String

abbrev pub default_model : String
default_model = "Alpha Wheeled"

abbrev pub colon : ℕ
colon = 58

abbrev pub comma : ℕ
comma = 44

abbrev pub entry_of : List String → Option Entry
entry_of (s ∷ t ∷ m ∷ []) = some (record { serial = s; token = t; model = m })
entry_of (s ∷ t ∷ []) = some (record { serial = s; token = t; model = default_model })
entry_of (s ∷ t ∷ m ∷ x ∷ xs) = none
entry_of (s ∷ []) = none
entry_of [] = none

abbrev pub entries : String → List (Option Entry)
entries manifest =
    map (λ entry. entry_of (splitn 3 colon entry))
      (select (λ s. not (is_empty s)) (map trim (split comma manifest)))

-- the loop: an entry that is not well formed is passed over, and an error of the store is only logged
unfoldable pub seed : List (Option Entry) → ℕ → Conn Tables → ℕ × Conn Tables
seed [] manifest_count c = (manifest_count, c)
seed (none ∷ es) manifest_count c = seed es manifest_count c
seed (some e ∷ es) manifest_count c =
    seed es ((manifest_count + 1) % 2 ^ 32) (seed_manifest e.serial e.model e.token c).1

abbrev pub from_variable : Option String → Conn Tables → ℕ × Conn Tables
from_variable none c = (0, c)
from_variable (some manifest) c = seed (entries manifest) 0 c

abbrev or_zero : Result Error ℕ → ℕ
or_zero (ok n) = n
or_zero (err e) = 0

-- the two numbers that are logged, and the store
unfoldable pub start_store : Option String → Conn Tables → (ℕ × ℕ) × Conn Tables
unfolding seed
start_store factory_manifest c =
    let (manifest_count, d) = from_variable factory_manifest c in
    let (enrolled, e) = count_devices d in ((manifest_count, or_zero enrolled), e)
