-- ===== src/Device/Store/Claims/Stable.antt =====
-- What a claimed serial is, and an enrolled one, and that each call keeps them (the statements of
-- device-management-service/src/store/mod.rs that write).
use robot_fleet.Prelude.{
  ◌≡◌, ◌≢◌, refl, String, Bool, true, false, none, some, [], ◌∷◌, ◌++◌, arith, eq_iff, ltb,
}
use robot_fleet.Sql.Table.{
  find, contains, modify, find-append, find-modify, contains-is_some, contains-append,
  contains-modify,
}
use robot_fleet.Device.Store.{
  PreEnrollment, Tables, id_of, serial_of, claim_serial, with_status, seen_at, with_claimed,
  unclaimed, insert_device, update_device, upsert_serial, set_claimed, insert_entry,
  set_provisioned, insert_unclaimed,
}
use robot_fleet.Device.Store.Calls.{IsStable}
use robot_fleet.Device.Store.Validity.{AnySerial}

unfoldable pub is_claimed : String → Tables → Bool
is_claimed serial t = elim (find claim_serial serial t.pre_enrollment) [
  | none ↦ false
  | some r ↦ ltb 0 r.claimed
]

module _ (serial : String) where
  pub record IsClaimed (t : Tables) : Type 0 where
    pub claimed : is_claimed serial t ≡ true

  -- a claimed serial whose device is in the registry
  pub record IsEnrolled (t : Tables) : Type 0 where
    pub claimed : is_claimed serial t ≡ true
    pub device : contains serial_of serial t.devices ≡ true

  abbrev pub OtherSerial : String → Type 0
  OtherSerial other = other ≢ serial

  is_claimed-append :
      (t : Tables) (r : PreEnrollment)
      → is_claimed serial t ≡ true
      → is_claimed serial (record t { pre_enrollment = t.pre_enrollment ++ r ∷ [] }) ≡ true
  unfolding is_claimed
  is_claimed-append t r h = ground (
    arith,
    find-append claim_serial serial r t.pre_enrollment,
    contains-is_some claim_serial serial t.pre_enrollment,
  )

  is_claimed-set_claimed :
      (other : String) (t : Tables)
      → is_claimed serial t ≡ true
      → is_claimed serial (set_claimed other t).1 ≡ true
  unfolding is_claimed set_claimed
  is_claimed-set_claimed other t h =
      ground
        (arith, find-modify claim_serial other serial (with_claimed 1) t.pre_enrollment (λ r. refl))

  is_claimed-release :
      (other : String) (t : Tables)
      → other ≢ serial
      → is_claimed serial t ≡ true
      → is_claimed serial (record t {
        pre_enrollment = modify claim_serial other (with_claimed 0) t.pre_enrollment;
      })
        ≡ true
  unfolding is_claimed
  is_claimed-release other t ne h = ground (
    arith,
    eq_iff other serial,
    find-modify claim_serial other serial (with_claimed 0) t.pre_enrollment (λ r. refl),
  )

  pub IsClaimed-stable : IsStable OtherSerial IsClaimed
  unfolding insert_device update_device upsert_serial insert_entry set_provisioned insert_unclaimed
      is_claimed
  IsClaimed-stable = record {
    inserting = λ r. record { after = λ t v. record { claimed = ground (arith, v.claimed) } };
    changing_status = λ id status. record { after = λ t v. record { claimed = v.claimed } };
    touching = λ id now. record { after = λ t v. record { claimed = v.claimed } };
    registering = λ other model ne. record {
      after = λ t v. record {
        claimed = ground (
          arith,
          v.claimed,
          is_claimed-append t (unclaimed other model) v.claimed,
          is_claimed-release other t ne v.claimed,
        );
      };
    };
    claiming = λ other. record {
      after = λ t v. record { claimed = is_claimed-set_claimed other t v.claimed };
    };
    seeding = λ other model token. record {
      after = λ t v. record { claimed = ground (arith, v.claimed) };
    };
    provisioning = λ now other. record { after = λ t v. record { claimed = v.claimed } };
    opening = λ other model. record {
      after = λ t v. record {
        claimed = ground (arith, v.claimed, is_claimed-append t (unclaimed other model) v.claimed);
      };
    };
  }

  pub IsEnrolled-stable : IsStable AnySerial IsEnrolled
  unfolding insert_device update_device upsert_serial insert_entry set_provisioned insert_unclaimed
      is_claimed set_claimed
  IsEnrolled-stable = record {
    inserting = λ r. record {
      after = λ t v. record {
        claimed = ground (arith, v.claimed);
        device = ground (arith, v.device, contains-append serial_of serial r t.devices);
      };
    };
    changing_status = λ id status. record {
      after = λ t v. record {
        claimed = v.claimed;
        device =
            rw
              (contains-modify id_of serial_of (with_status status) (λ r. refl) id serial t.devices)
              v.device;
      };
    };
    touching = λ id now. record {
      after = λ t v. record {
        claimed = v.claimed;
        device =
            rw (contains-modify id_of serial_of (seen_at now) (λ r. refl) id serial t.devices)
              v.device;
      };
    };
    registering = λ other model _. record {
      after = λ t v. record {
        claimed = ground (
          arith,
          v.claimed,
          v.device,
          eq_iff other serial,
          is_claimed-append t (unclaimed other model) v.claimed,
          find-modify claim_serial other serial (with_claimed 0) t.pre_enrollment (λ r. refl),
        );
        device = ground (arith, v.device);
      };
    };
    claiming = λ other. record {
      after =
          λ t v. record { claimed = is_claimed-set_claimed other t v.claimed; device = v.device };
    };
    seeding = λ other model token. record {
      after =
          λ t v. record { claimed = ground (arith, v.claimed); device = ground (arith, v.device) };
    };
    provisioning =
        λ now other. record { after = λ t v. record { claimed = v.claimed; device = v.device } };
    opening = λ other model. record {
      after = λ t v. record {
        claimed = ground (arith, v.claimed, is_claimed-append t (unclaimed other model) v.claimed);
        device = ground (arith, v.device);
      };
    };
  }
