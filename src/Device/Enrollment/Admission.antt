-- ===== src/Device/Enrollment/Admission.antt =====
-- Who is admitted to the fleet by `bootstrap_enroll`, what an admission leaves in the store, and what a
-- refusal does.
use robot_fleet.Prelude.{
  ℕ, ◌≡◌, ap, ◌∙◌, String, false, some, List, [], ◌∷◌, ◌++◌, arith, All, eq_refl, Result, ok,
  Result-cases, is_ok, not, ◌&&◌, ◌==◌, inl, inr, lift, pure,
}
use robot_fleet.Prelude.Results.Inversion.{map_err-eq-ok, >>=-eq-ok}
use robot_fleet.Pki.Csr.{Rcgen}
use robot_fleet.Pki.Mtls.{X509, extract_serial, verify_signed_by}
use robot_fleet.Sql.{Conn}
use robot_fleet.Sql.Table.{contains, find, contains-append, find-append}
use robot_fleet.Sql.Keeping.{Holds}
use robot_fleet.Device.Error.{Error, pki}
use robot_fleet.Device.Store.{
  NewDevice, DeviceRecord, PreEnrollment, PreEnrollmentRecord, claim_serial, Tables, id_of,
  new_record, create_device, lookup_and_claim,
}
use robot_fleet.Device.Store.Calls.{Call, Registers, run, create_device-Holds}
use robot_fleet.Device.Store.Claims.{
  IsEnrolled, IsClaimed-stable, IsClaimed-after, claim_done, enrolled_stays_claimed,
}
use robot_fleet.Device.Store.Validity.{AnySerial}
use robot_fleet.Device.Enrollment.Caller.{authenticate, authenticate_lem}
use robot_fleet.Device.Enrollment.{
  EnrollResult, EnrollmentService, Inputs, new_device, fleet_sign, bootstrap_enroll, admit,
}

-- what a successful `create_device` has done, whatever else fails
create_device_done :
    (id : String) (now : ℕ) (d : NewDevice) (c : Conn Tables) (r : DeviceRecord)
    → (create_device id now d c).0 ≡ ok r
    → (r ≡ new_record id now d)
      × (contains id_of id c.tables.devices ≡ false)
      × ((create_device id now d c).1.tables
          ≡ record c.tables { devices = c.tables.devices ++ new_record id now d ∷ [] })
      × ((create_device id now d c).1.saved ≡ c.saved)
unfolding create_device
create_device_done id now d c r h = ground arith

abbrev model_of : PreEnrollmentRecord → String
model_of p = p.model

abbrev after : Result Error EnrollResult × Conn Tables → Conn Tables
after p = p.1

module _ (rcgen : Rcgen) (x509 : X509) (svc : EnrollmentService) (inp : Inputs)
    (csr_pem firmware : String) where
  abbrev stored :
      String → PreEnrollmentRecord → String → Conn Tables → Result Error DeviceRecord × Conn Tables
  stored serial pre cert c =
      create_device inp.id inp.stored_at (new_device serial pre.model firmware cert)
        (lookup_and_claim serial c).1

  -- What a successful admission has gone through. Its last state is that of `create_device`.
  abbrev Admitted : String → Conn Tables → Conn Tables → EnrollResult → Type 0
  Admitted serial c d res =
      (pre : PreEnrollmentRecord) × ((lookup_and_claim serial c).0 ≡ ok pre)
      × (fleet_sign rcgen x509 svc inp.signed_at csr_pem ≡ ok res.operational_cert_pem)
      × (r : DeviceRecord) × ((stored serial pre res.operational_cert_pem c).0 ≡ ok r)
      × (res.device_id ≡ r.id)
      × (d ≡ (stored serial pre res.operational_cert_pem c).1)

  admit_steps :
      (serial : String) (c : Conn Tables) (res : EnrollResult)
      → (admit rcgen x509 svc inp serial csr_pem firmware c).0 ≡ ok res
      → Admitted serial c (admit rcgen x509 svc inp serial csr_pem firmware c).1 res
  unfolding admit lift pure
  admit_steps serial c res h =
      let (pre, e1, h1, s1) = >>=-eq-ok (lookup_and_claim serial) _ c res h in
      let (signed, e2, h2, s2) = >>=-eq-ok (lift _) _ (lookup_and_claim serial c).1 res h1 in
      let (r, e3, h3, s3) =
        >>=-eq-ok (create_device _ _ (new_device serial pre.model firmware signed)) _
          (lookup_and_claim serial c).1 res h2 in
      let same : res.operational_cert_pem ≡ signed = ground arith in
      (
        pre,
        e1,
        rw same (map_err-eq-ok pki _ e2),
        r,
        rw same e3,
        ground arith,
        rw same (ap after (s1 ∙ s2 ∙ s3)),
      )

  IsEnrolled-after :
      (serial : String) (pre : PreEnrollmentRecord) (cert : String) (c : Conn Tables)
      (r : DeviceRecord)
      → (lookup_and_claim serial c).0 ≡ ok pre
      → (stored serial pre cert c).0 ≡ ok r
      → Holds (IsEnrolled serial) (stored serial pre cert c).1
  IsEnrolled-after serial pre cert c r h k =
      let (same, fresh, written, kept) =
        create_device_done _ _ _ (lookup_and_claim serial c).1 r k in
      let claimed =
        (create_device-Holds (IsClaimed-stable serial) inp.id inp.stored_at
            (new_device serial pre.model firmware cert)).after
          _ (IsClaimed-after serial c pre h) in
      record {
        now = record {
          claimed = claimed.now.claimed;
          device = rw (written, contains-append) (ground (arith, eq_refl serial));
        };
        after_rollback = rw (kept, (claim_done serial c pre h).5) tt;
      }

  device_after :
      (serial : String) (pre : PreEnrollmentRecord) (cert : String) (c : Conn Tables)
      (r : DeviceRecord)
      → (stored serial pre cert c).0 ≡ ok r
      → find id_of r.id (stored serial pre cert c).1.tables.devices
        ≡ some (new_record inp.id inp.stored_at (new_device serial pre.model firmware cert))
  device_after serial pre cert c r k =
      let d = new_device serial pre.model firmware cert in
      let before = (lookup_and_claim serial c).1 in
      let (same, fresh, written, kept) = create_device_done inp.id inp.stored_at d before r k in
      rw (same, written, find-append) (ground (arith, fresh, eq_refl inp.id))

  module _ (serial_from_req : String) (peer_certs : List x509.CertificateDer)
      (device_ca_pem : String) where
    abbrev pub enroll : Conn Tables → Result Error EnrollResult × Conn Tables
    enroll =
        bootstrap_enroll rcgen x509 svc inp serial_from_req csr_pem firmware peer_certs
          device_ca_pem

    enroll_steps :
        (c : Conn Tables) (res : EnrollResult)
        → (enroll c).0 ≡ ok res
        → (serial : String) × (authenticate x509 serial_from_req peer_certs device_ca_pem
            ≡ ok serial)
          × Admitted serial c (enroll c).1 res
    unfolding bootstrap_enroll lift
    enroll_steps c res h =
        let (serial, e, k, s) = >>=-eq-ok (lift _) _ c res h in
        let (pre, claim, sign, r, create, named, state) = admit_steps serial c res k in
        (serial, e, (pre, claim, sign, r, create, named, ap after s ∙ state))

    -- A device is admitted only if its certificate is signed by the Device CA, the serial is that of the
    -- certificate, agrees with the one in the request, if there is one, and was registered and not yet
    -- claimed. Then the certificate that is returned is signed with the Fleet CA's key, the store finds
    -- an active device of this serial with this certificate under the id that is returned, and the
    -- serial is claimed for good, whichever statement the engine failed on the way.
    pub bootstrap_enroll_admits :
        (c : Conn Tables) (res : EnrollResult)
        → (enroll c).0 ≡ ok res
        → (serial : String) × (extract_serial x509 peer_certs ≡ ok serial)
          × (verify_signed_by x509 peer_certs device_ca_pem ≡ ok tt)
          × ((not (serial_from_req == "") && not (serial_from_req == serial)) ≡ false)
          × (row : PreEnrollment) × (find claim_serial serial c.tables.pre_enrollment ≡ some row)
          × (row.claimed ≡ 0)
          × (fleet_sign rcgen x509 svc inp.signed_at csr_pem ≡ ok res.operational_cert_pem)
          × Holds (IsEnrolled serial) (enroll c).1
          × (find id_of res.device_id (enroll c).1.tables.devices
              ≡ some (
                  new_record inp.id inp.stored_at
                    (new_device serial row.model firmware res.operational_cert_pem)))
    bootstrap_enroll_admits c res h =
        let (serial, auth, (pre, claim, sign, r, create, named, state)) = enroll_steps c res h in
        let (own, agree, signed) =
          authenticate_lem x509 serial_from_req peer_certs device_ca_pem serial auth in
        let (row, found, free, shown, _, _) = claim_done serial c pre claim in
        (
          serial,
          own,
          signed,
          agree,
          row,
          found,
          free,
          sign,
          rw state (IsEnrolled-after serial pre res.operational_cert_pem c r claim create),
          rw (state, named, ← ap model_of shown)
              (device_after serial pre res.operational_cert_pem c r create),
        )

-- A certificate is good for one admission: after an admission, and any calls to the store, a call with
-- any certificate of the same serial is refused, whatever else it holds.
pub no_second_enrollment :
    (rcgen : Rcgen) (x509 : X509) (svc : EnrollmentService) (inp later : Inputs)
    (csr firmware serial_from_req device_ca_pem : String) (peer_certs : List x509.CertificateDer)
    (csr' firmware' serial_from_req' : String) (peer_certs' : List x509.CertificateDer)
    (calls : List Call) (c : Conn Tables) (res : EnrollResult)
    → (bootstrap_enroll rcgen x509 svc inp serial_from_req csr firmware peer_certs device_ca_pem
        c).0
      ≡ ok res
    → extract_serial x509 peer_certs' ≡ extract_serial x509 peer_certs
    → All (Registers AnySerial) calls
    → is_ok
        (bootstrap_enroll rcgen x509 svc later serial_from_req' csr' firmware' peer_certs'
          device_ca_pem
          (run calls
            (bootstrap_enroll rcgen x509 svc inp serial_from_req csr firmware peer_certs
              device_ca_pem c).1)).0
      ≡ false
no_second_enrollment rcgen x509 svc inp later csr firmware sfr ca certs csr' firmware' sfr' certs'
      calls c res h same any =
    let d = (bootstrap_enroll rcgen x509 svc inp sfr csr firmware certs ca c).1 in
    let (serial, own, _, _, _, _, _, _, holds, _) =
      bootstrap_enroll_admits rcgen x509 svc inp csr firmware sfr certs ca c res h in
    let refused = enrolled_stays_claimed serial d calls holds any in
    elim (Result-cases
      (bootstrap_enroll rcgen x509 svc later sfr' csr' firmware' certs' ca (run calls d)).0) [
        | inl (e, k) ↦ rw k
        | inr (res', k) ↦
            let (serial', auth, (pre, claim, _, _, _, _, _)) =
              enroll_steps rcgen x509 svc later csr' firmware' sfr' certs' ca (run calls d) res'
                k in
            let (own', _, _) = authenticate_lem x509 sfr' certs' ca serial' auth in
            let s : serial' ≡ serial = cc in
            absurd
              (ground (arith, ap (λ (j : String). is_ok (lookup_and_claim j (run calls d)).0) s))
      ]
