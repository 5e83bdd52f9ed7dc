-- ===== src/Tests/EnrollmentTests.antt =====
-- Certificates, enrollment and provisioning at concrete inputs.
use robot_fleet.Prelude.{
  ◌+◌, ◌*◌, ◌≡◌, refl, String, false, none, some, List, [], ◌∷◌, not, ◌&&◌, ◌||◌, ◌==◌, Result, ok,
  err, is_ok, ◌>>=◌, unwrap_or,
}
use robot_fleet.Pki.Error as Pki
use robot_fleet.Pki.Csr.{sign_csr}
use robot_fleet.Pki.Mtls.{extract_serial, verify_signed_by}
use robot_fleet.Sql.{Conn}
use robot_fleet.Sql.Table.{find, contains}
use robot_fleet.Sql.Keeping.{Holds}
use robot_fleet.Device.Error.{Error, pki}
use robot_fleet.Device.Store.{
  ManifestEntry, PreEnrollment, claim_serial, Tables, id_of, entry_serial, new_record,
  lookup_and_claim, create_device, claim_manifest_entry,
}
use robot_fleet.Device.Store.Calls.{Call, touches, run}
use robot_fleet.Device.Store.Claims.{IsEnrolled}
use robot_fleet.Device.Enrollment.{
  EnrollResult, new_device, admit, fleet_sign, bootstrap_enroll, authenticate,
}
use robot_fleet.Device.Enrollment.Admission.{bootstrap_enroll_admits}
use robot_fleet.Device.Enrollment.Renewal.{signing_failure_burns_claim}
use robot_fleet.Device.Provisioning.{
  ProvisionDeviceRequest, ProvisioningServer, device_sign, provision_device,
}
use robot_fleet.Device.Provisioning.Tokens.{provision_device_ok}
use robot_fleet.Tests.Fixtures.{toy_rcgen, toy_x509, service, inputs, pre, registry, tables}

abbrev peer : List (String × String)
peer = ("SN-1", "device ca") ∷ []

abbrev enrolled : EnrollResult
enrolled = record {
  device_id = "d2";
  operational_cert_pem = "request signed by fleet key";
  fleet_ca_chain_pem = "fleet ca";
  expires_at = 101 + 30 * 86400;
}

abbrev enroll : Conn Tables → Result Error EnrollResult × Conn Tables
enroll =
    bootstrap_enroll toy_rcgen toy_x509 service inputs "SN-1" "request" "1.0.0" peer "device ca"

enroll_works : (enroll registry).0 ≡ ok enrolled
unfolding bootstrap_enroll ◌>>=◌ authenticate extract_serial verify_signed_by admit lookup_and_claim
    find sign_csr create_device contains
enroll_works = refl

bootstrap_enroll_admits_example :
    (serial : String) × (extract_serial toy_x509 peer ≡ ok serial)
    × (verify_signed_by toy_x509 peer "device ca" ≡ ok tt)
    × ((not ("SN-1" == "") && not ("SN-1" == serial)) ≡ false)
    × (row : PreEnrollment) × (find claim_serial serial tables.pre_enrollment ≡ some row)
    × (row.claimed ≡ 0)
    × (fleet_sign toy_rcgen toy_x509 service inputs.signed_at "request"
        ≡ ok enrolled.operational_cert_pem)
    × Holds (IsEnrolled serial) (enroll registry).1
    × (find id_of "d2" (enroll registry).1.tables.devices
        ≡ some (
            new_record "d2" 102
              (new_device serial row.model "1.0.0" "request signed by fleet key")))
bootstrap_enroll_admits_example =
    bootstrap_enroll_admits toy_rcgen toy_x509 service inputs "request" "1.0.0" "SN-1" peer
      "device ca" registry enrolled enroll_works

abbrev later : List Call
later = touches 200 "d2" ∷ []

signing_failure_burns_claim_example :
    let q =
      bootstrap_enroll toy_rcgen toy_x509 service inputs "SN-1" "broken" "1.0.0" peer "device ca"
        registry in
    (q.0 ≡ err (pki (Pki.pem "no request")))
    × (is_ok (lookup_and_claim "SN-1" (run later q.1)).0 ≡ false)
unfolding authenticate sign_csr find extract_serial verify_signed_by
signing_failure_burns_claim_example =
    signing_failure_burns_claim toy_rcgen toy_x509 service inputs "SN-1" "broken" "1.0.0"
      "device ca" "SN-1" peer (pre "SN-1" 0) registry (Pki.pem "no request") later refl refl refl
      refl refl refl (tt, tt)

abbrev server : ProvisioningServer
server = record { device_ca_cert_pem = "device ca"; device_ca_key_pem = "device key" }

abbrev request : String → String → ProvisionDeviceRequest
request csr token = record { serial = "SN-1"; csr_pem = csr; provision_token = token }

provision_works :
    (provision_device toy_rcgen server 5 6 (request "request" "token") registry).0
    ≡ ok "request signed by device key"
unfolding provision_device ◌>>=◌ claim_manifest_entry find contains sign_csr
provision_works = refl

provision_device_ok_example :
    let d = (provision_device toy_rcgen server 5 6 (request "request" "token") registry).1 in
    ((("SN-1" == "") || ("request" == "") || ("token" == "")) ≡ false)
    × (device_sign toy_rcgen server 5 6 "request" ≡ ok "request signed by device key")
    × (e : ManifestEntry) × (find entry_serial "SN-1" tables.factory_manifest ≡ some e)
    × (e.token ≡ "token")
    × (e.provisioned_at ≡ none)
    × (d.saved ≡ none)
    × (find entry_serial "SN-1" d.tables.factory_manifest
        ≡ some (record e { provisioned_at = some 6 }))
    × (find claim_serial "SN-1" d.tables.pre_enrollment
        ≡ some (
            unwrap_or
              (find claim_serial "SN-1" tables.pre_enrollment)
              (record { serial = "SN-1"; model = e.model; claimed = 0 })))
    × (d.tables.devices ≡ tables.devices)
provision_device_ok_example =
    provision_device_ok toy_rcgen server 5 6 (request "request" "token") registry
      "request signed by device key" provision_works
