-- ===== src/Artifact/Startup.antt =====
-- `main` in artifact-store/src/main.rs. `open` is SqliteRegistry::new, which opens the database and creates
-- its table.
use robot_fleet.Prelude.{String, some, Result, ok, map_err}
use robot_fleet.Prelude.Outcome.{◌>>=◌, ◌>>◌}
use robot_fleet.Service.{
  StartError, not_opened, Host, ServerTlsConfig, Listener, env_or, read_env, address_of, checked,
}
use robot_fleet.Sql.{Conn}
use robot_fleet.Artifact.Registry.{Artifacts}
use robot_fleet.Artifact.Storage.{S3, MinioStore, new_store}

-- what an ArtifactServer holds
pub record ArtifactServer (s3 : S3) : Type 0 where
  pub registry : Conn Artifacts
  pub storage : MinioStore s3

module _ (host : Host) (s3 : S3) (open_registry : String → Result String (Conn Artifacts)) where
  abbrev pub artifact_tls : host.Bytes → host.Bytes → host.Bytes → ServerTlsConfig host.Bytes
  artifact_tls server_cert server_key fleet_ca = record {
    identity = (server_cert, server_key);
    client_ca_root = some fleet_ca;
  }

  abbrev pub minio : MinioStore s3
  minio =
      new_store s3 (env_or host "MINIO_ENDPOINT" "http://localhost:9000")
        (env_or host "MINIO_ACCESS_KEY" "minioadmin") (env_or host "MINIO_SECRET_KEY" "minioadmin")
        (env_or host "MINIO_BUCKET" "robot-artifacts")

  unfoldable pub start : Result StartError (Listener host (ArtifactServer s3))
  unfolding read_env
  start = do
    server_cert ← read_env host "SERVER_CERT_PEM"
    server_key ← read_env host "SERVER_KEY_PEM"
    fleet_ca ← read_env host "FLEET_CA_CERT_PEM"
    registry ← map_err not_opened (open_registry (env_or host "DB_PATH" "./artifacts.db"))
    addr ← address_of host "LISTEN_ADDR" (env_or host "LISTEN_ADDR" "[::]:9443")
    checked host (artifact_tls server_cert server_key fleet_ca)
    ok (record {
      address = addr;
      tls = artifact_tls server_cert server_key fleet_ca;
      service = record { registry = registry; storage = minio };
    })
