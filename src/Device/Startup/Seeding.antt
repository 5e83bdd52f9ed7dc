-- ===== src/Device/Startup/Seeding.antt =====
-- What a start leaves in the factory manifest of the store.
use robot_fleet.Prelude.{
  ℕ, ◌+◌, ◌%◌, ◌^◌, ◌≡◌, ap, ◌∙◌, String, Option, none, some, List, [], ◌∷◌, arith, map, All, ◌==◌,
  eq_refl, eq_iff, if◌then◌else◌, ok,
}
use robot_fleet.Sql.{Conn, durable}
use robot_fleet.Sql.Table.{find, find-append, contains-is_some}
use robot_fleet.Device.Store.{
  ManifestEntry, Tables, entry_serial, new_entry, insert_entry, seed_manifest, count_devices,
  claim_manifest_entry,
}
use robot_fleet.Device.Store.Manifest.{claim_manifest_entry_result}
use robot_fleet.Device.Startup.{Entry, entries, seed, start_store}
use robot_fleet.Device.Startup.Manifest.{Line, IsLine, entry, manifest, entries-manifest}

abbrev or_else : Option ManifestEntry → Option ManifestEntry → Option ManifestEntry
or_else (some e) o = some e
or_else none o = o

-- the row of the first well-formed entry of a serial
abbrev pub first_of : String → List (Option Entry) → Option ManifestEntry
first_of serial [] = none
first_of serial (none ∷ es) = first_of serial es
first_of serial (some e ∷ es) =
    let rest = first_of serial es in
    if e.serial == serial then some (new_entry e.serial e.model e.token) else rest

abbrev row : String → Conn Tables → Option ManifestEntry
row serial c = find entry_serial serial c.tables.factory_manifest

-- no statement fails and no transaction is open
abbrev pub IsIdle : Conn Tables → Type 0
IsIdle c = (c.faults ≡ []) × (c.saved ≡ none)

row-seed_manifest :
    (serial other model token : String) (c : Conn Tables)
    → IsIdle c
    → (row serial (seed_manifest other model token c).1
        ≡ or_else
            (row serial c)
            (if other == serial then some (new_entry other model token) else none))
      × IsIdle (seed_manifest other model token c).1
unfolding seed_manifest insert_entry
row-seed_manifest serial other model token c works = ground (
  arith,
  find-append entry_serial serial (new_entry other model token) c.tables.factory_manifest,
  contains-is_some entry_serial serial c.tables.factory_manifest,
  contains-is_some entry_serial other c.tables.factory_manifest,
  eq_iff other serial,
)

-- the row that the store shows, and that a rollback would bring back
abbrev HasRow : String → ManifestEntry → Conn Tables → Type 0
HasRow serial r c =
    (row serial c ≡ some r) × (find entry_serial serial (durable c).factory_manifest ≡ some r)

HasRow-seed_manifest :
    (serial : String) (r : ManifestEntry) (other model token : String) (c : Conn Tables)
    → HasRow serial r c
    → HasRow serial r (seed_manifest other model token c).1
unfolding seed_manifest insert_entry
HasRow-seed_manifest serial r other model token c h = ground (
  arith,
  find-append entry_serial serial (new_entry other model token) c.tables.factory_manifest,
  contains-is_some entry_serial serial c.tables.factory_manifest,
)

-- With no failure to come the store shows for each serial the row that it had, or else one with the
-- token and the model of the first entry of the serial.
row-seed :
    (serial : String) (es : List (Option Entry)) (n : ℕ) (c : Conn Tables)
    → IsIdle c
    → (row serial (seed es n c).1 ≡ or_else (row serial c) (first_of serial es))
      × IsIdle (seed es n c).1
unfolding seed
row-seed serial [] n c works = ground arith
row-seed serial (none ∷ es) n c works = row-seed serial es n c works
row-seed serial (some e ∷ es) n c works =
    let here = row-seed_manifest serial e.serial e.model e.token c works in
    let later =
      row-seed serial es ((n + 1) % 2 ^ 32) (seed_manifest e.serial e.model e.token c).1 here.1 in
    ground (arith, here, later)

HasRow-seed :
    (serial : String) (r : ManifestEntry) (es : List (Option Entry)) (n : ℕ) (c : Conn Tables)
    → HasRow serial r c
    → HasRow serial r (seed es n c).1
unfolding seed
HasRow-seed serial r [] n c h = h
HasRow-seed serial r (none ∷ es) n c h = HasRow-seed serial r es n c h
HasRow-seed serial r (some e ∷ es) n c h =
    HasRow-seed serial r es ((n + 1) % 2 ^ 32) (seed_manifest e.serial e.model e.token c).1
      (HasRow-seed_manifest serial r e.serial e.model e.token c h)

HasRow-count_devices :
    (serial : String) (r : ManifestEntry) (c : Conn Tables)
    → HasRow serial r c
    → HasRow serial r (count_devices c).1
unfolding count_devices
HasRow-count_devices serial r c h = ground arith

row-count_devices :
    (serial : String) (c : Conn Tables) → IsIdle c → row serial (count_devices c).1 ≡ row serial c
unfolding count_devices
row-count_devices serial c h = ground arith

first_of_fresh :
    (serial : String) (es : List (Option Entry)) (e : ManifestEntry)
    → first_of serial es ≡ some e
    → e.provisioned_at ≡ none
first_of_fresh serial [] e h = cc
first_of_fresh serial (none ∷ es) e h = first_of_fresh serial es e h
first_of_fresh serial (some x ∷ es) e h = ground (arith, first_of_fresh serial es e)

count_devices-IsIdle : (c : Conn Tables) → IsIdle c → IsIdle (count_devices c).1
unfolding count_devices
count_devices-IsIdle c h = ground arith

-- A start never changes an entry that the store has, whatever the variable says about its serial and
-- whichever statements fail: a token that was used stays used, and a new token is not taken over. The
-- entry is durable: if a transaction is open, a rollback brings it back too.
pub start_store_keeps :
    (serial : String) (r : ManifestEntry) (variable : Option String) (c : Conn Tables)
    → find entry_serial serial c.tables.factory_manifest ≡ some r
    → find entry_serial serial (durable c).factory_manifest ≡ some r
    → (find entry_serial serial (start_store variable c).1.tables.factory_manifest ≡ some r)
      × (find entry_serial serial (durable (start_store variable c).1).factory_manifest ≡ some r)
unfolding start_store
start_store_keeps serial r none c h k = HasRow-count_devices serial r c (h, k)
start_store_keeps serial r (some text) c h k =
    HasRow-count_devices serial r (seed (entries text) 0 c).1
      (HasRow-seed serial r (entries text) 0 c (h, k))

-- With no failure to come the first line about a serial that the store does not know becomes its entry.
pub seeded_entry :
    (serial : String) (lines : List Line) (e : ManifestEntry) (c : Conn Tables)
    → All IsLine lines
    → IsIdle c
    → find entry_serial serial c.tables.factory_manifest ≡ none
    → first_of serial (map (λ l. some (entry l)) lines) ≡ some e
    → (find entry_serial serial (start_store (some (manifest lines)) c).1.tables.factory_manifest
        ≡ some e)
      × IsIdle (start_store (some (manifest lines)) c).1
      × (e.provisioned_at ≡ none)
unfolding start_store
seeded_entry serial lines e c plain idle unknown first =
    let es = entries (manifest lines) in
    let d = (seed es 0 c).1 in
    let (seeded, still_idle) = row-seed serial es 0 c idle in
    let found : row serial d ≡ some e =
      ground (arith, seeded, ap (first_of serial) (entries-manifest lines plain)) in
    (
      row-count_devices serial d still_idle ∙ found,
      count_devices-IsIdle d still_idle,
      first_of_fresh serial (map (λ l. some (entry l)) lines) e first,
    )

seed_others :
    (es : List (Option Entry)) (n : ℕ) (c : Conn Tables)
    → c.saved ≡ none
    → ((seed es n c).1.saved ≡ none)
      × ((seed es n c).1.tables.devices ≡ c.tables.devices)
      × ((seed es n c).1.tables.pre_enrollment ≡ c.tables.pre_enrollment)
unfolding seed seed_manifest insert_entry
seed_others [] n c h = ground arith
seed_others (none ∷ es) n c h = seed_others es n c h
seed_others (some e ∷ es) n c h =
    let d = (seed_manifest e.serial e.model e.token c).1 in
    ground (arith, seed_others es ((n + 1) % 2 ^ 32) d)

-- A start on a connection without an open transaction writes the factory manifest only, whatever fails.
pub start_store_others :
    (variable : Option String) (c : Conn Tables)
    → c.saved ≡ none
    → ((start_store variable c).1.tables.devices ≡ c.tables.devices)
      × ((start_store variable c).1.tables.pre_enrollment ≡ c.tables.pre_enrollment)
unfolding start_store count_devices
start_store_others none c h = ground arith
start_store_others (some text) c h = ground (arith, seed_others (entries text) 0 c)

-- A robot whose serial the store does not know is provisioned with the token that the first line about
-- it gives, after a start with a manifest in the documented form: the claim succeeds and returns the
-- line's model, or the default one. No statement fails and no transaction is open.
pub provisioned_after_start :
    (serial : String) (lines : List Line) (e : ManifestEntry) (now : ℕ) (c : Conn Tables)
    → All IsLine lines
    → IsIdle c
    → find entry_serial serial c.tables.factory_manifest ≡ none
    → first_of serial (map (λ l. some (entry l)) lines) ≡ some e
    → (claim_manifest_entry now serial e.token (start_store (some (manifest lines)) c).1).0
      ≡ ok e.model
provisioned_after_start serial lines e now c plain idle unknown first =
    let (found, calm, fresh) = seeded_entry serial lines e c plain idle unknown first in
    claim_manifest_entry_result serial now e.token (start_store (some (manifest lines)) c).1 calm.1
      calm.0
    ∙ ground (arith, found, eq_refl e.token, fresh)
