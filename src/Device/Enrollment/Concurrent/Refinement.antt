-- ===== src/Device/Enrollment/Concurrent/Refinement.antt =====
-- The handler's steps 4 to 6 (`admit`), run alone, are steps of the system in which enrollments overlap.
use robot_fleet.Prelude.{
  ◌≡◌, refl, String, [], ◌∷◌, arith, Result, ok, err, is_ok, Result-cases, inl, inr, if◌then◌else◌,
  map_err, ◌>>=◌,
}
use robot_fleet.Pki.Csr.{Rcgen}
use robot_fleet.Pki.Mtls.{X509}
use robot_fleet.Sql.{Conn}
use robot_fleet.Device.Error.{Error, pki}
use robot_fleet.Device.Store.{
  NewDevice, DeviceRecord, PreEnrollmentRecord, Tables, create_device, lookup_and_claim,
}
use robot_fleet.Device.Store.Calls.{claims as claiming, creates, perform}
use robot_fleet.Device.Enrollment.{
  EnrollmentService, EnrollResult, Inputs, new_device, fleet_sign, admit,
}
use robot_fleet.Device.Enrollment.Concurrent.{
  System, claimed, stored, Reach, here, next, claims, gives_up, stores, calls,
}

module _ (rcgen : Rcgen) (x509 : X509) (svc : EnrollmentService) (inp : Inputs)
    (csr_pem firmware serial : String) where
  abbrev outcome : String → Conn Tables → Result Error EnrollResult × Conn Tables
  outcome x c = admit rcgen x509 svc inp x csr_pem firmware c

  abbrev pub end_of : String → System → System
  end_of x s = record {
    conn = (outcome x s.conn).1;
    in_flight = s.in_flight;
    admitted = if is_ok (outcome x s.conn).0 then x ∷ s.admitted else s.admitted;
  }

  module _ (x : String) (s : System) where
    abbrev after_claim : Conn Tables
    after_claim = (lookup_and_claim x s.conn).1

    abbrev device : PreEnrollmentRecord → String → NewDevice
    device pre signed = new_device x pre.model firmware signed

    claim_failed :
        (e : Error)
        → (lookup_and_claim x s.conn).0 ≡ err e
        → end_of x s ≡ record s { conn = perform (claiming x) s.conn }
    unfolding admit perform ◌>>=◌
    claim_failed e h = ground (arith, h)

    signing_failed :
        (pre : PreEnrollmentRecord) (e : Error)
        → (lookup_and_claim x s.conn).0 ≡ ok pre
        → map_err pki (fleet_sign rcgen x509 svc inp.signed_at csr_pem) ≡ err e
        → end_of x s ≡ record s { conn = after_claim }
    unfolding admit perform ◌>>=◌
    signing_failed pre e h k = ground (arith, h, k)

    storing_failed :
        (pre : PreEnrollmentRecord) (signed : String) (e : Error)
        → (lookup_and_claim x s.conn).0 ≡ ok pre
        → map_err pki (fleet_sign rcgen x509 svc inp.signed_at csr_pem) ≡ ok signed
        → (create_device inp.id inp.stored_at (device pre signed) after_claim).0 ≡ err e
        → end_of x s ≡ record s {
          conn = perform (creates inp.id inp.stored_at (device pre signed)) after_claim;
        }
    unfolding admit perform ◌>>=◌
    storing_failed pre signed e h k l = ground (arith, h, k, l)

    stored_ok :
        (pre : PreEnrollmentRecord) (signed : String) (r : DeviceRecord)
        → (lookup_and_claim x s.conn).0 ≡ ok pre
        → map_err pki (fleet_sign rcgen x509 svc inp.signed_at csr_pem) ≡ ok signed
        → (create_device inp.id inp.stored_at (device pre signed) after_claim).0 ≡ ok r
        → end_of x s ≡ stored s.in_flight inp.id inp.stored_at (device pre signed) (claimed x s)
    unfolding admit perform ◌>>=◌
    stored_ok pre signed r h k l = ground (arith, h, k, l)

    claimed_then :
        (pre : PreEnrollmentRecord)
        → (lookup_and_claim x s.conn).0 ≡ ok pre
        → Reach serial s (claimed x s)
    claimed_then pre h = next here (claims x pre h)

    signed_then :
        (pre : PreEnrollmentRecord) (signed : String)
        → (lookup_and_claim x s.conn).0 ≡ ok pre
        → map_err pki (fleet_sign rcgen x509 svc inp.signed_at csr_pem) ≡ ok signed
        → Reach serial s (end_of x s)
    signed_then pre signed h k =
        elim (Result-cases (create_device inp.id inp.stored_at (device pre signed) after_claim).0) [
          | inl (e, l) ↦ rw (storing_failed pre signed e h k l) (
              next
                (next (claimed_then pre h)
                  (calls (creates inp.id inp.stored_at (device pre signed)) tt))
                (gives_up [] s.in_flight x refl))
          | inr (r, l) ↦ rw (stored_ok pre signed r h k l) (
              next (claimed_then pre h)
                (stores [] s.in_flight inp.id inp.stored_at (device pre signed) r refl l))
        ]

    -- Every run of the handler, to whatever result, is a sequence of the system's steps: it ends in the
    -- store that the handler leaves, with the same handlers in flight as before, and with the serial
    -- admitted exactly if the handler answers that it is.
    pub admit-Reach : Reach serial s (end_of x s)
    admit-Reach = elim (Result-cases (lookup_and_claim x s.conn).0) [
      | inl (e, h) ↦ rw (claim_failed e h) (next here (calls (claiming x) tt))
      | inr (pre, h) ↦
          elim (Result-cases (map_err pki (fleet_sign rcgen x509 svc inp.signed_at csr_pem))) [
            | inl (e, k) ↦
                rw (signing_failed pre e h k)
                  (next (claimed_then pre h) (gives_up [] s.in_flight x refl))
            | inr (signed, k) ↦ signed_then pre signed h k
          ]
    ]
