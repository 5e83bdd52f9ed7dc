-- ===== src/Device/Enrollment/Caller.antt =====
-- device-management-service/src/enrollment/mod.rs, steps 1 to 3 of `bootstrap_enroll`: the caller's
-- serial is read off its certificate, compared with the one in the request, and the certificate is
-- checked against the Device CA.
use robot_fleet.Prelude.{
  ◌≡◌, String, false, List, Result, ok, err, map_err, if◌then◌else◌, not, ◌&&◌, ◌==◌, arith,
}
use robot_fleet.Prelude.Outcome.{◌>>=◌, ◌>>◌}
use robot_fleet.Pki.Error as Pki
use robot_fleet.Pki.Mtls.{X509, extract_serial, verify_signed_by}
use robot_fleet.Device.Error.{Error, serial_mismatch, cert_verification, pki}

module _ (x509 : X509) where
  -- steps 1 to 3: who the caller is
  unfoldable pub authenticate : String → List x509.CertificateDer → String → Result Error String
  authenticate serial_from_req peer_certs device_ca_pem = do
    cert_serial ← map_err pki (extract_serial x509 peer_certs)
    if not (serial_from_req == "") && not (serial_from_req == cert_serial)
        then err (serial_mismatch cert_serial serial_from_req)
        else ok tt
    map_err (λ e. cert_verification (Pki.display e))
        (verify_signed_by x509 peer_certs device_ca_pem)
    ok cert_serial

  pub authenticate_lem :
      (serial_from_req : String) (peer_certs : List x509.CertificateDer)
      (device_ca_pem serial : String)
      → authenticate serial_from_req peer_certs device_ca_pem ≡ ok serial
      → (extract_serial x509 peer_certs ≡ ok serial)
        × ((not (serial_from_req == "") && not (serial_from_req == serial)) ≡ false)
        × (verify_signed_by x509 peer_certs device_ca_pem ≡ ok tt)
  unfolding authenticate
  authenticate_lem serial_from_req peer_certs device_ca_pem serial h = ground arith
