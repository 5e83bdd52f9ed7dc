-- ===== src/Device/Store.antt =====
-- device-management-service/src/store/mod.rs: the registry of devices in SQLite. A method holds the
-- connection's mutex throughout, so that concurrent calls are a sequence of calls. Its arguments `id`
-- and `now` are what `Uuid::new_v4` and the clock return. A poisoned mutex is not modelled. Times are
-- Unix seconds after 1970, and a page's limit is what the server passes, a number above 0.
mod Rows
pub mod Calls
pub mod Claims
pub mod Manifest
pub mod Validity
pub mod Lookup
pub mod Paging
pub mod Registry
pub mod Phases
pub mod Stuck
use robot_fleet.Prelude.{
  ℕ, ◌+◌, ◌≡◌, String, Bool, true, false, Option, none, some, List, [], ◌∷◌, ◌++◌, ◌&&◌, ◌==◌, not,
  Result, ok, err, Method, pure, fail, attempt, with_error, ◌>>=◌, ◌>>◌, if◌then◌else◌, ltb, nat_eq,
  is_some, length, take, last, drop_last, select,
}
use mathlib.Core.Option
use robot_fleet.Prelude.Text.{text_ltb}
use robot_fleet.Sql.{
  SqlError, constraint_violation, query_returned_no_rows, failure, Conn, statement, transaction,
}
use robot_fleet.Sql.Table.{find, contains, modify, count}
use robot_fleet.Sql.Order.{order_rows}
use robot_fleet.Device.Error.{
  Error, not_found, already_enrolled, not_pre_enrolled, serial_already_claimed, not_in_manifest,
  invalid_provision_token, already_provisioned, db,
}
unfoldable pub use Rows.*

abbrev pub DeviceStore : Type 0 → Type 0
DeviceStore A = Method (Conn Tables) Error A

abbrev row : {A : Type 0} → Option A → Result SqlError A
row none = err query_returned_no_rows
row (some a) = ok a

-- `query_row`
unfoldable pub query_row : {A : Type 0} → (Tables → Option A) → Method (Conn Tables) SqlError A
unfolding statement
query_row q = statement λ t. (row (q t), t)

-- the `map_err` behind a query that found no row
abbrev pub or_missing : Error → SqlError → Error
or_missing e query_returned_no_rows = e
or_missing e (constraint_violation column) = db (constraint_violation column)
or_missing e (failure text) = db (failure text)

abbrev pub or_enrolled : String → SqlError → Error
or_enrolled serial (constraint_violation column) = already_enrolled serial
or_enrolled serial query_returned_no_rows = db query_returned_no_rows
or_enrolled serial (failure text) = db (failure text)

unfoldable pub create_device : String → ℕ → NewDevice → DeviceStore DeviceRecord
unfolding insert_device statement ◌>>=◌
create_device id now d = do
  with_error (or_enrolled d.serial) (statement (insert_device (new_record id now d)))
  pure (new_record id now d)

unfoldable pub get_device : String → DeviceStore DeviceRecord
unfolding query_row with_error
get_device id = with_error (or_missing (not_found id)) (query_row λ t. find id_of id t.devices)

unfoldable pub get_by_serial : String → DeviceStore DeviceRecord
unfolding query_row with_error
get_by_serial serial =
    with_error (or_missing (not_found serial)) (query_row λ t. find serial_of serial t.devices)

-- `_reason` is not used.
unfoldable pub update_status : String → String → String → DeviceStore (Unit {0})
unfolding update_device statement ◌>>=◌
update_status id status reason = do
  rows ← with_error db (statement (update_device id (with_status status)))
  if nat_eq rows 0 then fail (not_found id) else pure tt

unfoldable pub touch_last_seen : ℕ → String → DeviceStore (Unit {0})
unfolding update_device statement ◌>>=◌
touch_last_seen now id = do
  rows ← with_error db (statement (update_device id (seen_at now)))
  if nat_eq rows 0 then fail (not_found id) else pure tt

unfoldable pub list_devices :
    Option String
    → Option String
    → ℕ
    → Option String
    → DeviceStore (List DeviceRecord × Option String)
unfolding select_devices page statement ◌>>=◌
list_devices model status limit cursor = do
  rows ← with_error db (statement λ t. (ok (select_devices model status cursor (limit + 1) t), t))
  pure (page limit rows)

unfoldable pub register_serial : String → String → DeviceStore (Unit {0})
unfolding upsert_serial statement with_error
register_serial serial model = with_error db (statement (upsert_serial serial model))

-- the closure of `lookup_and_claim`
unfoldable pub claim_serial_once : String → DeviceStore PreEnrollmentRecord
unfolding query_row set_claimed statement ◌>>=◌
claim_serial_once serial = do
  r ←
      with_error (or_missing (not_pre_enrolled serial))
        (query_row λ t. find claim_serial serial t.pre_enrollment)
  if nat_eq r.claimed 0 then pure tt else fail (serial_already_claimed serial)
  with_error db (statement (set_claimed serial))
  pure (record { serial = serial; model = r.model })

unfoldable pub lookup_and_claim : String → DeviceStore PreEnrollmentRecord
unfolding claim_serial_once transaction
lookup_and_claim serial = transaction db (claim_serial_once serial)

unfoldable pub count_devices : DeviceStore ℕ
unfolding statement with_error
count_devices = with_error db (statement λ t. (ok (length t.devices), t))

unfoldable pub seed_manifest : String → String → String → DeviceStore (Unit {0})
unfolding insert_entry statement with_error
seed_manifest serial model token = with_error db (statement (insert_entry serial model token))

-- the closure of `claim_manifest_entry`
unfoldable pub claim_entry_once : ℕ → String → String → DeviceStore String
unfolding query_row set_provisioned insert_unclaimed statement ◌>>=◌
claim_entry_once now serial token = do
  r ←
      with_error (or_missing (not_in_manifest serial))
        (query_row λ t. find entry_serial serial t.factory_manifest)
  if r.token == token then pure tt else fail (invalid_provision_token serial)
  if is_some r.provisioned_at then fail (already_provisioned serial) else pure tt
  with_error db (statement (set_provisioned now serial))
  with_error db (statement (insert_unclaimed serial r.model))
  pure r.model

unfoldable pub claim_manifest_entry : ℕ → String → String → DeviceStore String
unfolding claim_entry_once transaction
claim_manifest_entry now serial token = transaction db (claim_entry_once now serial token)
