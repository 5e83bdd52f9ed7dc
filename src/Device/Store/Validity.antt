-- ===== src/Device/Store/Validity.antt =====
-- The tables of the device store keep their keys: the PRIMARY KEY and UNIQUE columns of the migration.
use robot_fleet.Prelude.{refl, String, List, arith, All}
use robot_fleet.Prelude.Results.Keeps.{Keeps}
use robot_fleet.Sql.{Conn}
use robot_fleet.Sql.Keeping.{Holds}
use robot_fleet.Sql.Table.{IsUnique, IsUnique-append, IsUnique-modify}
use robot_fleet.Device.Store.{
  DeviceRecord, Tables, id_of, serial_of, claim_serial, entry_serial, with_status, seen_at,
  with_claimed, unclaimed, new_entry, provisioned, insert_device, update_device, upsert_serial,
  set_claimed, insert_entry, set_provisioned, insert_unclaimed,
}
use robot_fleet.Device.Store.Calls.{Call, IsStable, Registers, run, run-Holds}

pub record IsValid (t : Tables) : Type 0 where
  pub ids : IsUnique id_of t.devices
  pub serials : IsUnique serial_of t.devices
  pub claims : IsUnique claim_serial t.pre_enrollment
  pub entries : IsUnique entry_serial t.factory_manifest

-- any serial may be registered
abbrev pub AnySerial : String → Type 0
AnySerial serial = Unit

insert_device-IsValid : (r : DeviceRecord) → Keeps IsValid (insert_device r)
unfolding insert_device
insert_device-IsValid r = record {
  after = λ t v.
      ground (arith, IsUnique-append id_of r t.devices, IsUnique-append serial_of r t.devices);
}

upsert_serial-IsValid : (serial model : String) → Keeps IsValid (upsert_serial serial model)
unfolding upsert_serial
upsert_serial-IsValid serial model = record {
  after = λ t v. ground (
    arith,
    IsUnique-append claim_serial (unclaimed serial model) t.pre_enrollment,
    IsUnique-modify claim_serial claim_serial (with_claimed 0) (λ r. refl) serial t.pre_enrollment,
  );
}

IsValid-stable : IsStable AnySerial IsValid
unfolding update_device set_claimed insert_entry set_provisioned insert_unclaimed
IsValid-stable = record {
  inserting = insert_device-IsValid;
  changing_status = λ id status. record {
    after = λ t v. ground (
      arith,
      IsUnique-modify id_of id_of (with_status status) (λ r. refl) id t.devices,
      IsUnique-modify id_of serial_of (with_status status) (λ r. refl) id t.devices,
    );
  };
  touching = λ id now. record {
    after = λ t v. ground (
      arith,
      IsUnique-modify id_of id_of (seen_at now) (λ r. refl) id t.devices,
      IsUnique-modify id_of serial_of (seen_at now) (λ r. refl) id t.devices,
    );
  };
  registering = λ serial model h. upsert_serial-IsValid serial model;
  claiming = λ serial. record {
    after = λ t v. ground (
      arith,
      IsUnique-modify claim_serial claim_serial (with_claimed 1) (λ r. refl) serial
          t.pre_enrollment,
    );
  };
  seeding = λ serial model token. record {
    after = λ t v.
        ground
          (arith, IsUnique-append entry_serial (new_entry serial model token) t.factory_manifest);
  };
  provisioning = λ now serial. record {
    after = λ t v. ground (
      arith,
      IsUnique-modify entry_serial entry_serial (provisioned now) (λ r. refl) serial
          t.factory_manifest,
    );
  };
  opening = λ serial model. record {
    after = λ t v.
        ground (arith, IsUnique-append claim_serial (unclaimed serial model) t.pre_enrollment);
  };
}

-- Whatever calls are made, and whichever of their statements the engine fails, the ids and the
-- serials of the devices stay unique, and so do the serials of the two other tables, both in the
-- tables and in what a rollback would bring back, if they were unique at the start.
pub run-IsValid :
    (calls : List Call) (c : Conn Tables)
    → All (Registers AnySerial) calls
    → Holds IsValid c
    → Holds IsValid (run calls c)
run-IsValid = run-Holds IsValid-stable
