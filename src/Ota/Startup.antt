-- ===== src/Ota/Startup.antt =====
-- `main` in ota-service/src/main.rs. `open` is SqliteJobStore::new, which opens the database and creates its
-- table.
use robot_fleet.Prelude.{String, some, [], Result, ok, map_err}
use robot_fleet.Prelude.Outcome.{◌>>=◌, ◌>>◌}
use robot_fleet.Service.{
  StartError, not_opened, Host, ServerTlsConfig, Listener, env_or, read_env_to_string, address_of,
  checked,
}
use robot_fleet.Sql.{Conn}
use robot_fleet.Ota.Store.{Jobs}
use robot_fleet.Ota.Dispatcher.{Broadcast}
use robot_fleet.Ota.Server.{OtaServer}

module _ (host : Host) (broadcast : Broadcast)
    (open_store : String → Result String (Conn Jobs)) where
  abbrev pub ota_tls : String → String → String → ServerTlsConfig host.Bytes
  ota_tls cert_pem key_pem ca_pem = record {
    identity = (host.as_bytes cert_pem, host.as_bytes key_pem);
    client_ca_root = some (host.as_bytes ca_pem);
  }

  unfoldable pub start : Result StartError (Listener host (OtaServer broadcast))
  unfolding read_env_to_string
  start = do
    listen_addr ← address_of host "LISTEN_ADDR" (env_or host "LISTEN_ADDR" "[::]:9444")
    cert_pem ← read_env_to_string host "SERVER_CERT_PEM"
    key_pem ← read_env_to_string host "SERVER_KEY_PEM"
    ca_pem ← read_env_to_string host "FLEET_CA_CERT_PEM"
    store ← map_err not_opened (open_store (env_or host "DB_PATH" "./ota.db"))
    checked host (ota_tls cert_pem key_pem ca_pem)
    ok (record {
      address = listen_addr;
      tls = ota_tls cert_pem key_pem ca_pem;
      service = record { store = store; dispatcher = [] };
    })
