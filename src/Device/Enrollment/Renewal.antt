-- ===== src/Device/Enrollment/Renewal.antt =====
-- Calls of the enrollment service that admit nobody: refusals of `bootstrap_enroll`, and `renew_cert`.
use robot_fleet.Prelude.{
  ℕ, ◌≡◌, refl, String, true, false, none, some, List, [], arith, All, ok, err, is_ok, ◌>>=◌, ◌==◌,
}
use robot_fleet.Pki.Error as Pki
use robot_fleet.Pki.Csr.{Rcgen}
use robot_fleet.Pki.Mtls.{X509}
use robot_fleet.Sql.{Conn}
use robot_fleet.Sql.Table.{find}
use robot_fleet.Device.Error.{Error, pki}
use robot_fleet.Device.Store.{
  PreEnrollment, DeviceRecord, Tables, id_of, claim_serial, lookup_and_claim, get_device,
}
use robot_fleet.Device.Store.Calls.{Call, Registers, run}
use robot_fleet.Device.Store.Claims.{OtherSerial, claim_wins_once, lookup_and_claim_result}
use robot_fleet.Device.Enrollment.Caller.{authenticate}
use robot_fleet.Device.Enrollment.{
  EnrollmentService, Inputs, fleet_sign, expiry, admit, bootstrap_enroll, renew_cert,
}

module _ (rcgen : Rcgen) (x509 : X509) (svc : EnrollmentService) (inp : Inputs) where
  -- A caller that is not who it says it is, or has no certificate of the Device CA, is refused before
  -- the store is touched.
  pub refused_untouched :
      (serial_from_req csr_pem firmware device_ca_pem : String)
      (peer_certs : List x509.CertificateDer) (c : Conn Tables) (e : Error)
      → authenticate x509 serial_from_req peer_certs device_ca_pem ≡ err e
      → bootstrap_enroll rcgen x509 svc inp serial_from_req csr_pem firmware peer_certs
          device_ca_pem c
        ≡ (err e, c)
  unfolding bootstrap_enroll ◌>>=◌
  refused_untouched serial_from_req csr_pem firmware device_ca_pem peer_certs c e h = rw h

  admit_sign_fails :
      (serial csr_pem firmware : String) (r : PreEnrollment) (c : Conn Tables) (e : Pki.Error)
      → c.saved ≡ none
      → c.faults ≡ []
      → find claim_serial serial c.tables.pre_enrollment ≡ some r
      → r.claimed ≡ 0
      → fleet_sign rcgen x509 svc inp.signed_at csr_pem ≡ err e
      → admit rcgen x509 svc inp serial csr_pem firmware c
        ≡ (err (pki e), (lookup_and_claim serial c).1)
  unfolding admit ◌>>=◌
  admit_sign_fails serial csr_pem firmware r c e idle works h fresh k =
      ground (arith, lookup_and_claim_result serial c idle works)

  admitted_eq :
      (serial_from_req csr_pem firmware device_ca_pem serial : String)
      (peer_certs : List x509.CertificateDer) (c : Conn Tables)
      → authenticate x509 serial_from_req peer_certs device_ca_pem ≡ ok serial
      → bootstrap_enroll rcgen x509 svc inp serial_from_req csr_pem firmware peer_certs
          device_ca_pem c
        ≡ admit rcgen x509 svc inp serial csr_pem firmware c
  unfolding bootstrap_enroll ◌>>=◌
  admitted_eq serial_from_req csr_pem firmware device_ca_pem serial peer_certs c h = rw h

  -- A request that cannot be signed costs the device its enrollment: the claim is committed before
  -- the request is looked at, so the call ends in the PKI error, and from then on, until the serial
  -- is registered again, every claim of it fails, the device's next attempt included. The serial is
  -- registered and unclaimed before, no transaction is open and nothing fails.
  pub signing_failure_burns_claim :
      (serial_from_req csr_pem firmware device_ca_pem serial : String)
      (peer_certs : List x509.CertificateDer) (r : PreEnrollment) (c : Conn Tables) (e : Pki.Error)
      (calls : List Call)
      → authenticate x509 serial_from_req peer_certs device_ca_pem ≡ ok serial
      → c.saved ≡ none
      → c.faults ≡ []
      → find claim_serial serial c.tables.pre_enrollment ≡ some r
      → r.claimed ≡ 0
      → fleet_sign rcgen x509 svc inp.signed_at csr_pem ≡ err e
      → All (Registers (OtherSerial serial)) calls
      → let q =
          bootstrap_enroll rcgen x509 svc inp serial_from_req csr_pem firmware peer_certs
            device_ca_pem c in
        (q.0 ≡ err (pki e)) × (is_ok (lookup_and_claim serial (run calls q.1)).0 ≡ false)
  signing_failure_burns_claim serial_from_req csr_pem firmware device_ca_pem serial peer_certs r c e
        calls auth idle works h fresh k others =
      let claim : (lookup_and_claim serial c).0 ≡ ok (record { serial = serial; model = r.model }) =
        ground (arith, lookup_and_claim_result serial c idle works) in
      rw
        (
          admitted_eq serial_from_req csr_pem firmware device_ca_pem serial peer_certs c auth,
          admit_sign_fails serial csr_pem firmware r c e idle works h fresh k,
        )
        (refl, claim_wins_once serial c _ calls claim others)

  -- A certificate is renewed only for a device that the store finds and that is active; the renewed
  -- certificate is signed with the Fleet CA's key and the tables stay as they are.
  pub renew_cert_active :
      (device_id csr_pem cert_pem : String) (expires_at : ℕ) (c : Conn Tables)
      → (renew_cert rcgen x509 svc inp device_id csr_pem c).0 ≡ ok (cert_pem, expires_at)
      → (r : DeviceRecord) × (find id_of device_id c.tables.devices ≡ some r)
        × ((r.status == "active") ≡ true)
        × (fleet_sign rcgen x509 svc inp.signed_at csr_pem ≡ ok cert_pem)
        × (expires_at ≡ expiry rcgen x509 svc inp.answered_at)
        × ((renew_cert rcgen x509 svc inp device_id csr_pem c).1.tables ≡ c.tables)
  unfolding renew_cert get_device ◌>>=◌
  renew_cert_active device_id csr_pem cert_pem expires_at c h = ground arith
