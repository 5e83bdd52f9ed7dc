-- ===== src/Device/Store/Claims.antt =====
-- The claim of a serial (`lookup_and_claim`), which keeps a device certificate from being used twice.
pub mod Stable
use robot_fleet.Prelude.{
  ◌≡◌, ◌≢◌, refl, ◌∙◌, String, Bool, true, false, Option, none, some, List, [], ◌∷◌, ◌++◌, arith,
  All, eq_iff, eq_refl, ltb, if◌then◌else◌, Result, ok, err, Result-cases, is_ok, nat_eq, ◌⊎◌, inl,
  inr,
}
use robot_fleet.Prelude.Results.Keeps.{Keeps, keeps_rules}
use robot_fleet.Sql.{Conn, durable}
use robot_fleet.Sql.Keeping.{Holds}
use robot_fleet.Sql.Transaction.{opened, StaysOpen, durable-transaction_err, durable-transaction_ok}
use robot_fleet.Sql.Table.{
  find, contains, modify, find-append, find-modify, contains-is_some, contains-append,
  contains-modify,
}
use robot_fleet.Device.Error.{Error, db, not_pre_enrolled, serial_already_claimed}
use robot_fleet.Device.Store.{
  PreEnrollment, PreEnrollmentRecord, Tables, id_of, serial_of, claim_serial, with_status, seen_at,
  with_claimed, unclaimed, insert_device, update_device, upsert_serial, set_claimed, insert_entry,
  set_provisioned, insert_unclaimed, claim_serial_once, lookup_and_claim,
}
use robot_fleet.Device.Store.Calls.{Call, IsStable, Registers, run, run-Holds}
use robot_fleet.Device.Store.Validity.{AnySerial}
unfoldable pub use Stable.{is_claimed}
pub use Stable.{IsClaimed, IsEnrolled, OtherSerial, IsClaimed-stable, IsEnrolled-stable}

module _ (serial : String) where
  -- While the serial is claimed no call of `lookup_and_claim` succeeds.
  pub claim_refused :
      (c : Conn Tables)
      → is_claimed serial c.tables ≡ true
      → is_ok (lookup_and_claim serial c).0 ≡ false
  unfolding lookup_and_claim is_claimed
  claim_refused c h = ground arith

  StaysOpen-claim : StaysOpen (claim_serial_once serial)
  unfolding claim_serial_once
  StaysOpen-claim = record {
    open_still = λ c t h good. ground arith;
    undone = λ c t h. ground arith;
  }

  -- What a successful body has done.
  claim_serial_once_lem :
      (c : Conn Tables) (rec : PreEnrollmentRecord)
      → (claim_serial_once serial c).0 ≡ ok rec
      → (r : PreEnrollment) × (find claim_serial serial c.tables.pre_enrollment ≡ some r)
        × (r.claimed ≡ 0)
        × (rec ≡ record { serial = serial; model = r.model })
        × ((claim_serial_once serial c).1.tables ≡ (set_claimed serial c.tables).1)
  unfolding claim_serial_once
  claim_serial_once_lem c rec h = ground arith

  abbrev pub Claimed : Conn Tables → Conn Tables → PreEnrollmentRecord → Type 0
  Claimed c d rec =
      (r : PreEnrollment) × (find claim_serial serial c.tables.pre_enrollment ≡ some r)
      × (r.claimed ≡ 0)
      × (rec ≡ record { serial = serial; model = r.model })
      × (d.tables ≡ (set_claimed serial c.tables).1)
      × (d.saved ≡ none)

  pub claim_done :
      (c : Conn Tables) (rec : PreEnrollmentRecord)
      → (lookup_and_claim serial c).0 ≡ ok rec
      → Claimed c (lookup_and_claim serial c).1 rec
  unfolding lookup_and_claim
  claim_done c rec h =
      let t = durable-transaction_ok db (claim_serial_once serial) StaysOpen-claim c rec h in
      let (r, found, fresh, shown, written) = claim_serial_once_lem (opened c) rec t.1 in
      (r, found, fresh, shown, t.2 ∙ written, t.3)

  -- The claim is atomic, whichever of its statements the engine fails: either it returns an error and
  -- the durable tables are as before, or the serial's row was there and unclaimed, its model is
  -- returned, and exactly that row is now claimed, with no transaction left open.
  pub lookup_and_claim_atomic :
      (c : Conn Tables)
      → ((e : Error) × ((lookup_and_claim serial c).0 ≡ err e)
          × (durable (lookup_and_claim serial c).1 ≡ durable c))
        ⊎ ((rec : PreEnrollmentRecord) × ((lookup_and_claim serial c).0 ≡ ok rec)
            × Claimed c (lookup_and_claim serial c).1 rec)
  lookup_and_claim_atomic c = elim (Result-cases (lookup_and_claim serial c).0) [
    | inl (e, h) ↦ inl (
      e,
      h,
      unfold lookup_and_claim in
          durable-transaction_err db (claim_serial_once serial) StaysOpen-claim c e h,
    )
    | inr (rec, h) ↦ inr (rec, h, claim_done c rec h)
  ]

  set_claimed-IsClaimed :
      (t : Tables) (r : PreEnrollment)
      → find claim_serial serial t.pre_enrollment ≡ some r
      → is_claimed serial (set_claimed serial t).1 ≡ true
  unfolding is_claimed set_claimed
  set_claimed-IsClaimed t r h = ground (
    arith,
    eq_refl serial,
    find-modify claim_serial serial serial (with_claimed 1) t.pre_enrollment (λ r. refl),
  )

  pub IsClaimed-after :
      (c : Conn Tables) (rec : PreEnrollmentRecord)
      → (lookup_and_claim serial c).0 ≡ ok rec
      → Holds (IsClaimed serial) (lookup_and_claim serial c).1
  IsClaimed-after c rec h =
      let (r, found, fresh, shown, written, closed) = claim_done c rec h in
      record {
        now = record { claimed = rw written (set_claimed-IsClaimed c.tables r found) };
        after_rollback = rw closed tt;
      }

  pub unclaimed_before :
      (c : Conn Tables) (rec : PreEnrollmentRecord)
      → (lookup_and_claim serial c).0 ≡ ok rec
      → is_claimed serial c.tables ≡ false
  unfolding is_claimed
  unclaimed_before c rec h =
      let (r, found, fresh, _, _, _) = claim_done c rec h in ground (arith, found, fresh)

  -- A serial is claimed once: after a call of `lookup_and_claim` that succeeded, and any calls among
  -- which none registers the serial again, another call for it fails. The engine may fail any
  -- statement on the way.
  pub claim_wins_once :
      (c : Conn Tables) (rec : PreEnrollmentRecord) (calls : List Call)
      → (lookup_and_claim serial c).0 ≡ ok rec
      → All (Registers (OtherSerial serial)) calls
      → is_ok (lookup_and_claim serial (run calls (lookup_and_claim serial c).1)).0 ≡ false
  claim_wins_once c rec calls h others =
      claim_refused (run calls (lookup_and_claim serial c).1)
        (run-Holds (IsClaimed-stable serial) calls _ others (IsClaimed-after c rec h)).now.claimed

  -- Once the device of a claimed serial is in the registry its serial cannot be claimed again, whatever
  -- calls are made, registrations of the serial included, and whatever fails.
  pub enrolled_stays_claimed :
      (c : Conn Tables) (calls : List Call)
      → Holds (IsEnrolled serial) c
      → All (Registers AnySerial) calls
      → is_ok (lookup_and_claim serial (run calls c)).0 ≡ false
  enrolled_stays_claimed c calls h any =
      claim_refused (run calls c) (run-Holds (IsEnrolled-stable serial) calls c any h).now.claimed

  -- What the claim returns and writes when the engine works.
  abbrev pub claim_result : Option PreEnrollment → Result Error PreEnrollmentRecord
  claim_result none = err (not_pre_enrolled serial)
  claim_result (some r) =
      if nat_eq r.claimed 0
      then ok (record { serial = serial; model = r.model })
      else err (serial_already_claimed serial)

  -- With no transaction open and no failure to come the claim succeeds exactly if the serial's row is
  -- there and unclaimed, and says which of the two is missing otherwise.
  pub lookup_and_claim_result :
      (c : Conn Tables)
      → c.saved ≡ none
      → c.faults ≡ []
      → (lookup_and_claim serial c).0
        ≡ claim_result (find claim_serial serial c.tables.pre_enrollment)
  unfolding lookup_and_claim
  lookup_and_claim_result c idle works = ground arith
