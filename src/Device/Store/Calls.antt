-- ===== src/Device/Store/Calls.antt =====
-- Sequences of calls to the device store (device-management-service/src/store/mod.rs), in the order in
-- which they take the mutex, and what holds of the tables however long the sequence is.
use robot_fleet.Prelude.{ℕ, String, Option, List, [], ◌∷◌, Result, All}
use robot_fleet.Prelude.Results.Keeps.{Keeps, keeps_rules}
use robot_fleet.Sql.{SqlError, Conn}
use robot_fleet.Sql.Keeping.{Holds, Holds-statement, Holds-transaction}
use robot_fleet.Device.Store.{
  NewDevice, DeviceRecord, Tables, query_row, insert_device, update_device, upsert_serial,
  set_claimed, insert_entry, set_provisioned, insert_unclaimed, with_status, seen_at, create_device,
  get_device, get_by_serial, update_status, touch_last_seen, list_devices, register_serial,
  claim_serial_once, lookup_and_claim, count_devices, seed_manifest, claim_entry_once,
  claim_manifest_entry,
}

pub data Call : Type 0 where
  creates : String → ℕ → NewDevice → Call
  gets gets_by_serial : String → Call
  updates_status : String → String → String → Call
  touches : ℕ → String → Call
  lists : Option String → Option String → ℕ → Option String → Call
  registers : String → String → Call
  claims : String → Call
  counts : Call
  seeds : String → String → String → Call
  claims_entry : ℕ → String → String → Call

unfoldable pub perform : Call → Conn Tables → Conn Tables
perform (creates id now d) c = (create_device id now d c).1
perform (gets id) c = (get_device id c).1
perform (gets_by_serial serial) c = (get_by_serial serial c).1
perform (updates_status id status reason) c = (update_status id status reason c).1
perform (touches now id) c = (touch_last_seen now id c).1
perform (lists model status limit cursor) c = (list_devices model status limit cursor c).1
perform (registers serial model) c = (register_serial serial model c).1
perform (claims serial) c = (lookup_and_claim serial c).1
perform counts c = (count_devices c).1
perform (seeds serial model token) c = (seed_manifest serial model token c).1
perform (claims_entry now serial token) c = (claim_manifest_entry now serial token c).1

unfoldable pub run : List Call → Conn Tables → Conn Tables
run [] c = c
run (call ∷ calls) c = run calls (perform call c)

-- A condition on the serials that are registered.
abbrev pub Registers : (String → Type 0) → Call → Type 0
Registers Allowed (registers serial model) = Allowed serial
Registers Allowed _ = Unit

-- `P` is kept by each statement that writes.
pub record IsStable (Allowed : String → Type 0) (P : Tables → Type 0) : Type 0 where
  pub inserting : (r : DeviceRecord) → Keeps P (insert_device r)
  pub changing_status : (id status : String) → Keeps P (update_device id (with_status status))
  pub touching : (id : String) (now : ℕ) → Keeps P (update_device id (seen_at now))
  pub registering : (serial model : String) → Allowed serial → Keeps P (upsert_serial serial model)
  pub claiming : (serial : String) → Keeps P (set_claimed serial)
  pub seeding : (serial model token : String) → Keeps P (insert_entry serial model token)
  pub provisioning : (now : ℕ) (serial : String) → Keeps P (set_provisioned now serial)
  pub opening : (serial model : String) → Keeps P (insert_unclaimed serial model)

module _ {Allowed : String → Type 0} {P : Tables → Type 0} (st : IsStable Allowed P) where
  reading : {A : Type 0} (q : Tables → Result SqlError A) → Keeps P (λ t. (q t, t))
  reading q = record { after = λ t h. h }

  query_row-Holds : {A : Type 0} (q : Tables → Option A) → Keeps (Holds P) (query_row q)
  unfolding query_row
  query_row-Holds q = Holds-statement _ (record { after = λ t h. h })

  pub create_device-Holds :
      (id : String) (now : ℕ) (d : NewDevice) → Keeps (Holds P) (create_device id now d)
  unfolding create_device
  create_device-Holds id now d = search (keeps_rules, Holds-statement, st.inserting)

  pub update_status-Holds :
      (id status reason : String) → Keeps (Holds P) (update_status id status reason)
  unfolding update_status
  update_status-Holds id status reason = search (keeps_rules, Holds-statement, st.changing_status)

  pub touch_last_seen-Holds : (now : ℕ) (id : String) → Keeps (Holds P) (touch_last_seen now id)
  unfolding touch_last_seen
  touch_last_seen-Holds now id = search (keeps_rules, Holds-statement, st.touching)

  pub list_devices-Holds :
      (model status : Option String) (limit : ℕ) (cursor : Option String)
      → Keeps (Holds P) (list_devices model status limit cursor)
  unfolding list_devices
  list_devices-Holds model status limit cursor = search (keeps_rules, Holds-statement, reading)

  claim_serial_once-Holds : (serial : String) → Keeps (Holds P) (claim_serial_once serial)
  unfolding claim_serial_once
  claim_serial_once-Holds serial =
      search (keeps_rules, Holds-statement, query_row-Holds, st.claiming) depth 9

  claim_entry_once-Holds :
      (now : ℕ) (serial token : String) → Keeps (Holds P) (claim_entry_once now serial token)
  unfolding claim_entry_once
  claim_entry_once-Holds now serial token =
      search (keeps_rules, Holds-statement, query_row-Holds, st.provisioning, st.opening) depth 13

  pub get_device-Holds : (id : String) → Keeps (Holds P) (get_device id)
  unfolding get_device
  get_device-Holds id = search (keeps_rules, query_row-Holds)

  get_by_serial-Holds : (serial : String) → Keeps (Holds P) (get_by_serial serial)
  unfolding get_by_serial
  get_by_serial-Holds serial = search (keeps_rules, query_row-Holds)

  register_serial-Holds :
      (serial model : String) → Allowed serial → Keeps (Holds P) (register_serial serial model)
  unfolding register_serial
  register_serial-Holds serial model h = search (keeps_rules, Holds-statement, st.registering)

  pub lookup_and_claim-Holds : (serial : String) → Keeps (Holds P) (lookup_and_claim serial)
  unfolding lookup_and_claim
  lookup_and_claim-Holds serial = Holds-transaction _ _ (claim_serial_once-Holds serial)

  count_devices-Holds : Keeps (Holds P) count_devices
  unfolding count_devices
  count_devices-Holds = search (keeps_rules, Holds-statement, reading)

  seed_manifest-Holds :
      (serial model token : String) → Keeps (Holds P) (seed_manifest serial model token)
  unfolding seed_manifest
  seed_manifest-Holds serial model token = search (keeps_rules, Holds-statement, st.seeding)

  pub claim_manifest_entry-Holds :
      (now : ℕ) (serial token : String) → Keeps (Holds P) (claim_manifest_entry now serial token)
  unfolding claim_manifest_entry
  claim_manifest_entry-Holds now serial token =
      Holds-transaction _ _ (claim_entry_once-Holds now serial token)

  pub perform-Holds :
      (call : Call) (c : Conn Tables)
      → Registers Allowed call
      → Holds P c
      → Holds P (perform call c)
  unfolding perform
  perform-Holds (creates id now d) c h v = (create_device-Holds id now d).after c v
  perform-Holds (gets id) c h v = (get_device-Holds id).after c v
  perform-Holds (gets_by_serial serial) c h v = (get_by_serial-Holds serial).after c v
  perform-Holds (updates_status id status reason) c h v =
      (update_status-Holds id status reason).after c v
  perform-Holds (touches now id) c h v = (touch_last_seen-Holds now id).after c v
  perform-Holds (lists model status limit cursor) c h v =
      (list_devices-Holds model status limit cursor).after c v
  perform-Holds (registers serial model) c h v = (register_serial-Holds serial model h).after c v
  perform-Holds (claims serial) c h v = (lookup_and_claim-Holds serial).after c v
  perform-Holds counts c h v = count_devices-Holds.after c v
  perform-Holds (seeds serial model token) c h v =
      (seed_manifest-Holds serial model token).after c v
  perform-Holds (claims_entry now serial token) c h v =
      (claim_manifest_entry-Holds now serial token).after c v

  pub run-Holds :
      (calls : List Call) (c : Conn Tables)
      → All (Registers Allowed) calls
      → Holds P c
      → Holds P (run calls c)
  unfolding run
  run-Holds [] c h v = v
  run-Holds (call ∷ calls) c h v = run-Holds calls (perform call c) h.1 (perform-Holds call c h.0 v)
