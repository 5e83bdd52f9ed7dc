-- ===== src/Device/Server.antt =====
-- device-management-service/src/server/mod.rs: the gRPC service of the registry. `Inputs` are the
-- readings of the clock and the UUID of one call. A request's peer certificates are what the TLS layer
-- hands over. The labels of a device are always empty and left out.
pub mod Answers
use robot_fleet.Prelude.{
  ℕ, zero, suc, ◌+◌, String, Option, none, some, List, [], ◌∷◌, map, Result, ok, err, Method, pure,
  fail, lift, with_error, map_err, ◌>>=◌, ◌>>◌, if◌then◌else◌, ◌==◌, unwrap_or,
}
use robot_fleet.Prelude.Int.{ℤ, pos, negsuc}
use robot_fleet.Prelude.Outcome.{ok_or}
use robot_fleet.Pki.Error as Pki
use robot_fleet.Pki.Csr.{Rcgen}
use robot_fleet.Pki.Mtls.{X509}
use robot_fleet.Grpc as Grpc
use robot_fleet.Grpc.{
  Status, status, invalid_argument, failed_precondition, unauthenticated, internal,
}
use robot_fleet.Sql.{Conn}
use robot_fleet.Device.Error.{
  Error, not_found, already_enrolled, serial_already_claimed, not_pre_enrolled, serial_mismatch,
  device_not_active, cert_verification, display,
}
use robot_fleet.Device.Store as Store
use robot_fleet.Device.Store.{DeviceRecord, Tables, update_status}
use robot_fleet.Device.Enrollment as Enrollment
use robot_fleet.Device.Enrollment.{EnrollmentService, EnrollResult, Inputs}
use robot_fleet.Device.Heartbeat.{Stream, Responses, handle}

abbrev pub server_status : Error → Status
server_status (not_found m) = status Grpc.not_found m
server_status (already_enrolled m) = status Grpc.already_exists m
server_status (serial_already_claimed m) = status Grpc.already_exists m
server_status (not_pre_enrolled m) = status failed_precondition m
server_status (serial_mismatch cert request) =
    status invalid_argument (display (serial_mismatch cert request))
server_status (device_not_active s) = status failed_precondition (display (device_not_active s))
server_status (cert_verification m) = status unauthenticated m
server_status e = status internal (display e)

pub record DeviceInfo : Type 0 where
  pub device_id : String
  pub serial : String
  pub model : String
  pub firmware : String
  pub status : String
  pub enrolled_at : ℕ
  pub last_seen_at : ℕ

abbrev pub record_to_proto : DeviceRecord → DeviceInfo
record_to_proto r = record {
  device_id = r.id;
  serial = r.serial;
  model = r.model;
  firmware = r.firmware;
  status = r.status;
  enrolled_at = r.enrolled_at;
  last_seen_at = r.last_seen_at;
}

pub record BootstrapEnrollRequest : Type 0 where
  pub serial : String
  pub csr_pem : String
  pub firmware : String

pub record ListDevicesRequest : Type 0 where
  pub model : String
  pub status : String
  pub limit : ℤ
  pub cursor : String

pub record ListDevicesResponse : Type 0 where
  pub devices : List DeviceInfo
  pub next_cursor : String

-- the fields of `DeviceManagementServer` beside the store and the heartbeat handler, which has no other
pub record DeviceManagementServer : Type 0 where
  pub enrollment : EnrollmentService
  pub device_ca_pem : String

abbrev pub new_server : String → String → String → ℕ → DeviceManagementServer
new_server fleet_ca_cert_pem fleet_ca_key_pem device_ca_pem cert_validity_days = record {
  enrollment = record {
    fleet_ca_cert_pem = fleet_ca_cert_pem;
    fleet_ca_key_pem = fleet_ca_key_pem;
    cert_validity_days = cert_validity_days;
  };
  device_ca_pem = device_ca_pem;
}

-- an empty field of a request means that it is absent
abbrev pub given : String → Option String
given s = if s == "" then none else some s

abbrev pub page_limit : ℤ → ℕ
page_limit (pos zero) = 50
page_limit (pos (suc n)) = suc n
page_limit (negsuc n) = 50

module _ (rcgen : Rcgen) (x509 : X509) (svc : EnrollmentService) (device_ca_pem : String) where
  unfoldable pub bootstrap_enroll :
      Inputs
      → Option (List x509.CertificateDer)
      → BootstrapEnrollRequest
      → Method (Conn Tables) Status EnrollResult
  bootstrap_enroll inp peer_certs req = do
    certs ← lift (ok_or (status unauthenticated "no peer certificate") peer_certs)
    with_error server_status (
        Enrollment.bootstrap_enroll rcgen x509 svc inp req.serial req.csr_pem req.firmware certs
          device_ca_pem)

  unfoldable pub renew_cert : Inputs → String → String → Method (Conn Tables) Status (String × ℕ)
  renew_cert inp device_id csr_pem =
      with_error server_status (Enrollment.renew_cert rcgen x509 svc inp device_id csr_pem)

unfoldable pub get_device : String → Method (Conn Tables) Status DeviceInfo
unfolding ◌>>=◌
get_device id = do r ← with_error server_status (Store.get_device id); pure (record_to_proto r)

unfoldable pub list_devices : ListDevicesRequest → Method (Conn Tables) Status ListDevicesResponse
unfolding ◌>>=◌
list_devices req = do
  found ← with_error server_status (
      Store.list_devices (given req.model) (given req.status) (page_limit req.limit)
        (given req.cursor))
  pure (record { devices = map record_to_proto found.0; next_cursor = unwrap_or found.1 "" })

unfoldable pub update_device_status :
    String → String → String → Method (Conn Tables) Status DeviceInfo
unfolding ◌>>=◌
update_device_status device_id status reason = do
  with_error server_status (update_status device_id status reason)
  r ← with_error server_status (Store.get_device device_id)
  pure (record_to_proto r)

-- the channel of responses holds 32; the handler runs on its own task
unfoldable pub stream_heartbeat :
    (Status → String) → Stream → ℕ → Conn Tables → Responses × Conn Tables
stream_heartbeat = handle
