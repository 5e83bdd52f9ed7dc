-- ===== src/Device/Provisioning.antt =====
-- device-management-service/src/provisioning/mod.rs: the factory provisioning service. `signed_at` and
-- `claimed_at` are the readings of the clock.
pub mod Tokens
use robot_fleet.Prelude.{
  ℕ, String, [], ◌∷◌, Result, map_err, Method, pure, fail, lift, with_error, ◌>>=◌, ◌>>◌,
  if◌then◌else◌, ◌||◌, ◌==◌,
}
use robot_fleet.Prelude.Text.{format}
use robot_fleet.Grpc.{
  Status, status, invalid_argument, permission_denied, already_exists, failed_precondition,
  internal,
}
use robot_fleet.Pki.Error as Pki
use robot_fleet.Pki.Csr.{Rcgen, sign_csr}
use robot_fleet.Sql.{Conn}
use robot_fleet.Device.Error.{
  Error, not_in_manifest, invalid_provision_token, already_provisioned, display,
}
use robot_fleet.Device.Store.{Tables, claim_manifest_entry}

pub record ProvisionDeviceRequest : Type 0 where
  pub serial : String
  pub csr_pem : String
  pub provision_token : String

-- the fields of `ProvisioningServer` beside the store
pub record ProvisioningServer : Type 0 where
  pub device_ca_cert_pem : String
  pub device_ca_key_pem : String

unfoldable pub provisioning_status : Error → Status
provisioning_status (not_in_manifest m) = status failed_precondition m
provisioning_status (invalid_provision_token m) = status permission_denied m
provisioning_status (already_provisioned m) = status already_exists m
provisioning_status e = status internal (display e)

pub signing_failed : Pki.Error → Status
signing_failed e = status internal (format ("CSR signing failed: " ∷ Pki.display e ∷ []))

module _ (rcgen : Rcgen) (server : ProvisioningServer) (signed_at claimed_at : ℕ) where
  abbrev pub device_sign : String → Result Pki.Error String
  device_sign csr_pem =
      sign_csr rcgen signed_at csr_pem server.device_ca_cert_pem server.device_ca_key_pem 365

  -- The response is the certificate.
  unfoldable pub provision_device : ProvisionDeviceRequest → Method (Conn Tables) Status String
  provision_device req = do
    if (req.serial == "") || (req.csr_pem == "") || (req.provision_token == "")
        then fail (status invalid_argument "serial, csr_pem, and provision_token are required")
        else pure tt
    model ←
        with_error provisioning_status
          (claim_manifest_entry claimed_at req.serial req.provision_token)
    lift (map_err signing_failed (device_sign req.csr_pem))
