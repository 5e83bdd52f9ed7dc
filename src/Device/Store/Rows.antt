-- ===== src/Device/Store/Rows.antt =====
-- The tables of the device store, the records of its methods, and its single statements, each a function
-- on the tables (device-management-service/src/store/mod.rs).
use robot_fleet.Prelude.{
  ℕ, String, Bool, true, Option, none, some, List, [], ◌∷◌, ◌++◌, ◌&&◌, ◌==◌, ok, err, Method,
  if◌then◌else◌, ltb, length, take, last, drop_last, select,
}
use mathlib.Core.Option
use robot_fleet.Prelude.Text.{text_ltb}
use robot_fleet.Sql.{SqlError, constraint_violation}
use robot_fleet.Sql.Table.{contains, modify, count}
use robot_fleet.Sql.Order.{order_rows}

pub record NewDevice : Type 0 where
  pub serial : String
  pub model : String
  pub firmware : String
  pub operational_cert_pem : String

-- also a row of the table `devices`
pub record DeviceRecord : Type 0 where
  pub id : String
  pub serial : String
  pub model : String
  pub firmware : String
  pub status : String
  pub operational_cert_pem : String
  pub enrolled_at : ℕ
  pub last_seen_at : ℕ

pub record PreEnrollmentRecord : Type 0 where
  pub serial : String
  pub model : String

-- a row of the table `pre_enrollment`
pub record PreEnrollment : Type 0 where
  pub serial : String
  pub model : String
  pub claimed : ℕ

-- a row of the table `factory_manifest`
pub record ManifestEntry : Type 0 where
  pub serial : String
  pub model : String
  pub token : String
  pub provisioned_at : Option ℕ

pub record Tables : Type 0 where
  pub factory_manifest : List ManifestEntry
  pub devices : List DeviceRecord
  pub pre_enrollment : List PreEnrollment

-- what the migration leaves in a new database
abbrev pub no_rows : Tables
no_rows = record { factory_manifest = []; devices = []; pre_enrollment = [] }

abbrev pub id_of : DeviceRecord → String
id_of r = r.id

abbrev pub serial_of : DeviceRecord → String
serial_of r = r.serial

abbrev pub claim_serial : PreEnrollment → String
claim_serial r = r.serial

abbrev pub entry_serial : ManifestEntry → String
entry_serial r = r.serial

unfoldable pub insert_device : DeviceRecord → Method Tables SqlError (Unit {0})
insert_device r t =
    if contains id_of r.id t.devices
    then (err (constraint_violation "devices.id"), t)
    else if contains serial_of r.serial t.devices
    then (err (constraint_violation "devices.serial"), t)
    else (ok tt, record t { devices = t.devices ++ r ∷ [] })

abbrev pub new_record : String → ℕ → NewDevice → DeviceRecord
new_record id now d = record {
  id = id;
  serial = d.serial;
  model = d.model;
  firmware = d.firmware;
  status = "active";
  operational_cert_pem = d.operational_cert_pem;
  enrolled_at = now;
  last_seen_at = now;
}

-- An UPDATE of one device. Its result is the number of rows.
unfoldable pub update_device : String → (DeviceRecord → DeviceRecord) → Method Tables SqlError ℕ
update_device id f t =
    (ok (count id_of id t.devices), record t { devices = modify id_of id f t.devices })

abbrev pub with_status : String → DeviceRecord → DeviceRecord
with_status status r = record r { status = status }

abbrev pub seen_at : ℕ → DeviceRecord → DeviceRecord
seen_at now r = record r { last_seen_at = now }

-- One optional condition of the WHERE clause.
abbrev pub agrees : Option String → String → Bool
agrees none column = true
agrees (some value) column = column == value

abbrev pub is_after : Option String → String → Bool
is_after none id = true
is_after (some cursor) id = text_ltb cursor id

abbrev pub matches : Option String → Option String → DeviceRecord → Bool
matches model status r = agrees model r.model && agrees status r.status

abbrev pub id_before : DeviceRecord → DeviceRecord → Bool
id_before r q = text_ltb r.id q.id

unfoldable pub select_devices :
    Option String → Option String → Option String → ℕ → Tables → List DeviceRecord
select_devices model status cursor limit t =
    take limit (
      order_rows id_before (select (λ r. matches model status r && is_after cursor r.id) t.devices))

-- what follows the query: the extra row says whether there is a next page
unfoldable pub page : ℕ → List DeviceRecord → List DeviceRecord × Option String
page limit rows =
    if ltb limit (length rows)
    then (drop_last rows, Option.map id_of (last (drop_last rows)))
    else (rows, none)

abbrev pub unclaimed : String → String → PreEnrollment
unclaimed serial model = record { serial = serial; model = model; claimed = 0 }

abbrev pub with_claimed : ℕ → PreEnrollment → PreEnrollment
with_claimed n r = record r { claimed = n }

-- INSERT … ON CONFLICT(serial) DO UPDATE SET claimed = 0 WHERE NOT EXISTS …
unfoldable pub upsert_serial : String → String → Method Tables SqlError (Unit {0})
upsert_serial serial model t =
    if contains claim_serial serial t.pre_enrollment
    then if contains serial_of serial t.devices then (ok tt, t) else (
      ok tt,
      record t { pre_enrollment = modify claim_serial serial (with_claimed 0) t.pre_enrollment },
    )
    else (ok tt, record t { pre_enrollment = t.pre_enrollment ++ unclaimed serial model ∷ [] })

unfoldable pub set_claimed : String → Method Tables SqlError (Unit {0})
set_claimed serial t = (
  ok tt,
  record t { pre_enrollment = modify claim_serial serial (with_claimed 1) t.pre_enrollment },
)

abbrev pub new_entry : String → String → String → ManifestEntry
new_entry serial model token = record {
  serial = serial;
  model = model;
  token = token;
  provisioned_at = none;
}

-- INSERT OR IGNORE
unfoldable pub insert_entry : String → String → String → Method Tables SqlError (Unit {0})
insert_entry serial model token t =
    if contains entry_serial serial t.factory_manifest then (ok tt, t) else (
      ok tt,
      record t { factory_manifest = t.factory_manifest ++ new_entry serial model token ∷ [] },
    )

abbrev pub provisioned : ℕ → ManifestEntry → ManifestEntry
provisioned now r = record r { provisioned_at = some now }

unfoldable pub set_provisioned : ℕ → String → Method Tables SqlError (Unit {0})
set_provisioned now serial t = (
  ok tt,
  record t { factory_manifest = modify entry_serial serial (provisioned now) t.factory_manifest },
)

-- INSERT OR IGNORE INTO pre_enrollment
unfoldable pub insert_unclaimed : String → String → Method Tables SqlError (Unit {0})
insert_unclaimed serial model t =
    if contains claim_serial serial t.pre_enrollment
    then (ok tt, t)
    else (ok tt, record t { pre_enrollment = t.pre_enrollment ++ unclaimed serial model ∷ [] })
