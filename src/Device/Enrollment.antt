-- ===== src/Device/Enrollment.antt =====
-- device-management-service/src/enrollment/mod.rs: the admission of a device to the fleet and the
-- renewal of its certificate. `Inputs` are the readings of the clock and the UUID of one call.
pub mod Caller
pub mod Admission
pub mod Renewal
pub mod Concurrent
use robot_fleet.Prelude.{
  ℕ, ◌+◌, ◌*◌, String, Bool, List, Result, Method, map_err, pure, fail, lift, ◌>>=◌, ◌>>◌,
  if◌then◌else◌, not, ◌&&◌, ◌==◌,
}
use robot_fleet.Pki.Error as Pki
unfoldable pub use Caller.{authenticate}
use robot_fleet.Pki.Csr.{Rcgen, sign_csr}
use robot_fleet.Pki.Mtls.{X509}
use robot_fleet.Device.Error.{Error, device_not_active, pki}
use robot_fleet.Device.Store.{
  NewDevice, DeviceRecord, DeviceStore, create_device, get_device, lookup_and_claim,
}

pub record EnrollResult : Type 0 where
  pub device_id : String
  pub operational_cert_pem : String
  pub fleet_ca_chain_pem : String
  pub expires_at : ℕ

-- the fields of `EnrollmentService` beside the store
pub record EnrollmentService : Type 0 where
  pub fleet_ca_cert_pem : String
  pub fleet_ca_key_pem : String
  pub cert_validity_days : ℕ

pub record Inputs : Type 0 where
  pub id : String
  pub signed_at : ℕ
  pub answered_at : ℕ
  pub stored_at : ℕ

abbrev pub new_device : String → String → String → String → NewDevice
new_device serial model firmware cert = record {
  serial = serial;
  model = model;
  firmware = firmware;
  operational_cert_pem = cert;
}

module _ (rcgen : Rcgen) (x509 : X509) (svc : EnrollmentService) where
  abbrev pub fleet_sign : ℕ → String → Result Pki.Error String
  fleet_sign now csr_pem =
      sign_csr rcgen now csr_pem svc.fleet_ca_cert_pem svc.fleet_ca_key_pem svc.cert_validity_days

  abbrev pub expiry : ℕ → ℕ
  expiry now = now + svc.cert_validity_days * 86400

  -- steps 4 to 6: claim, sign, store
  unfoldable pub admit : Inputs → String → String → String → DeviceStore EnrollResult
  admit inp cert_serial csr_pem firmware = do
    pre ← lookup_and_claim cert_serial
    signed ← lift (map_err pki (fleet_sign inp.signed_at csr_pem))
    r ← create_device inp.id inp.stored_at (new_device cert_serial pre.model firmware signed)
    pure (record {
      device_id = r.id;
      operational_cert_pem = signed;
      fleet_ca_chain_pem = svc.fleet_ca_cert_pem;
      expires_at = expiry inp.answered_at;
    })

  unfoldable pub bootstrap_enroll :
      Inputs
      → String
      → String
      → String
      → List x509.CertificateDer
      → String
      → DeviceStore EnrollResult
  bootstrap_enroll inp serial_from_req csr_pem firmware peer_certs device_ca_pem = do
    cert_serial ← lift (authenticate x509 serial_from_req peer_certs device_ca_pem)
    admit inp cert_serial csr_pem firmware

  unfoldable pub renew_cert : Inputs → String → String → DeviceStore (String × ℕ)
  renew_cert inp device_id csr_pem = do
    device ← get_device device_id
    if not (device.status == "active") then fail (device_not_active device.status) else pure tt
    signed ← lift (map_err pki (fleet_sign inp.signed_at csr_pem))
    pure (signed, expiry inp.answered_at)
