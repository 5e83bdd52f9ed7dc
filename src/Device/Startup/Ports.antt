-- ===== src/Device/Startup/Ports.antt =====
-- `main` in device-management-service/src/main.rs, up to the point from which its three servers run, and the
-- task that it spawns. `open` is SqliteDeviceStore::new, which opens the database and creates its tables.
pub mod Trust
use robot_fleet.Prelude.{
  ℕ, zero, suc, String, Option, none, some, List, [], ◌∷◌, Result, ok, map_err,
}
use robot_fleet.Prelude.Outcome.{◌>>=◌, ◌>>◌, ok_or}
use robot_fleet.Prelude.Split.{parse_u32}
use robot_fleet.Service.{
  StartError, invalid, not_opened, Host, ServerTlsConfig, Listener, env_or, read_env, utf8,
  address_of, checked,
}
use robot_fleet.Sql.{Conn}
use robot_fleet.Device.Error.{Error}
use robot_fleet.Device.Store.{Tables, count_devices}
use robot_fleet.Device.Provisioning.{ProvisioningServer}
use robot_fleet.Device.Server.{DeviceManagementServer, new_server}
use robot_fleet.Device.Startup.{start_store}

-- The task that logs the size of the fleet every thirty seconds: what it logs in `n` rounds.
unfoldable pub health_ticks : ℕ → Conn Tables → List (Result Error ℕ) × Conn Tables
health_ticks zero c = ([], c)
health_ticks (suc n) c =
    let (enrolled, d) = count_devices c in
    let (later, e) = health_ticks n d in (enrolled ∷ later, e)

module _ (host : Host) where
  open host use {Bytes, as_bytes, var}

  -- what is read before the store is opened
  pub record Settings : Type 0 where
    pub validity_days : ℕ
    pub server_cert : Bytes
    pub server_key : Bytes
    pub fleet_ca_cert : Bytes
    pub fleet_ca_key : Bytes
    pub device_ca_cert : Bytes
    pub device_ca_key : Bytes

  -- ports 8443, 8444 and 8445
  pub record Listeners : Type 0 where
    pub fleet : Listener host DeviceManagementServer
    pub bootstrap : Listener host DeviceManagementServer
    pub provisioning : Listener host ProvisioningServer

  abbrev pub validity_of : String → Result StartError ℕ
  validity_of text = ok_or (invalid "CERT_VALIDITY_DAYS") (parse_u32 text)

  unfoldable pub settings : Result StartError Settings
  unfolding read_env
  settings = do
    validity_days ← validity_of (env_or host "CERT_VALIDITY_DAYS" "30")
    server_cert ← read_env host "SERVER_CERT_PEM"
    server_key ← read_env host "SERVER_KEY_PEM"
    fleet_ca_cert ← read_env host "FLEET_CA_CERT_PEM"
    fleet_ca_key ← read_env host "FLEET_CA_KEY_PEM"
    device_ca_cert ← read_env host "DEVICE_CA_CERT_PEM"
    device_ca_key ← read_env host "DEVICE_CA_KEY_PEM"
    ok (record {
      validity_days = validity_days;
      server_cert = server_cert;
      server_key = server_key;
      fleet_ca_cert = fleet_ca_cert;
      fleet_ca_key = fleet_ca_key;
      device_ca_cert = device_ca_cert;
      device_ca_key = device_ca_key;
    })

  -- a server whose clients show a certificate of the CA, if one is named
  abbrev pub tls_of : Settings → Option String → ServerTlsConfig Bytes
  tls_of s none = record { identity = (s.server_cert, s.server_key); client_ca_root = none }
  tls_of s (some ca_pem) = record {
    identity = (s.server_cert, s.server_key);
    client_ca_root = some (as_bytes ca_pem);
  }

  unfoldable pub listeners : Settings → Result StartError Listeners
  listeners s = do
    fleet_ca_cert_pem ← utf8 host "FLEET_CA_CERT_PEM" s.fleet_ca_cert
    fleet_ca_key_pem ← utf8 host "FLEET_CA_KEY_PEM" s.fleet_ca_key
    device_ca_cert_pem ← utf8 host "DEVICE_CA_CERT_PEM" s.device_ca_cert
    device_ca_key_pem ← utf8 host "DEVICE_CA_KEY_PEM" s.device_ca_key
    fleet_addr ← address_of host "LISTEN_ADDR" (env_or host "LISTEN_ADDR" "[::]:8443")
    bootstrap_addr ← address_of host "BOOTSTRAP_ADDR" (env_or host "BOOTSTRAP_ADDR" "[::]:8444")
    provisioning_addr ←
        address_of host "PROVISIONING_ADDR" (env_or host "PROVISIONING_ADDR" "[::]:8445")
    checked host (tls_of s (some fleet_ca_cert_pem))
    checked host (tls_of s (some device_ca_cert_pem))
    checked host (tls_of s none)
    ok (record {
      fleet = record {
        address = fleet_addr;
        tls = tls_of s (some fleet_ca_cert_pem);
        service = new_server fleet_ca_cert_pem fleet_ca_key_pem device_ca_cert_pem s.validity_days;
      };
      bootstrap = record {
        address = bootstrap_addr;
        tls = tls_of s (some device_ca_cert_pem);
        service = new_server fleet_ca_cert_pem fleet_ca_key_pem device_ca_cert_pem s.validity_days;
      };
      provisioning = record {
        address = provisioning_addr;
        tls = tls_of s none;
        service = record {
          device_ca_cert_pem = device_ca_cert_pem;
          device_ca_key_pem = device_ca_key_pem;
        };
      };
    })

  module _ (open_store : String → Result String (Conn Tables)) where
    -- An error of the outer result means that no store was opened; the store that is returned has been
    -- seeded, also if the servers could not be set up.
    unfoldable pub start : Result StartError (Result StartError Listeners × Conn Tables)
    start = do
      s ← settings
      c ← map_err not_opened (open_store (env_or host "DB_PATH" "./fleet.db"))
      ok (listeners s, (start_store (var "FACTORY_MANIFEST") c).1)
