-- ===== src/Agent/Startup.antt =====
-- `main` of robot-agent/src/main.rs up to the three tasks: the data directory, which is the state, the
-- environment, the phases of Agent/Enrollment and the two connections. A channel is the address and
-- the configuration that it was opened with. DEVICE_MODEL and FIRMWARE_VERSION only go into a request,
-- whose answer is an input. Logging is left out.
pub mod Trust
pub mod Again
use robot_fleet.Prelude.{
  String, Option, Result, ok, err, Method, pure, lift, ◌>>=◌, ◌>>◌, unwrap_or, is_some,
}
use robot_fleet.Prelude.Outcome.{ok_or}
use robot_fleet.Agent.Error.{Error, missing_env}
use robot_fleet.Agent.Disk.{Disk}
use robot_fleet.Agent.Enrollment.{
  ClientTlsConfig, mtls_config, EnrollResponse, Generated, World, start_up,
}

-- what the program finds outside of its data directory; `serves` says what tonic says of a connection
pub record Outside : Type 0 where
  pub var : String → Option String
  pub create_dir_all : String → Result Error (Unit {0})
  pub read_to_string : String → Result Error String
  pub serves : String → ClientTlsConfig → Result Error (Unit {0})
  pub device_key : Generated
  pub operational_key : Generated
  pub provisioned : Result Error String
  pub enrolled : Result Error EnrollResponse

pub record Channel : Type 0 where
  pub address : String
  pub tls : ClientTlsConfig

-- the arguments of the three tasks: heartbeats and telemetry share the first channel
pub record Tasks : Type 0 where
  pub device_id : String
  pub fleet_channel : Channel
  pub ota_channel : Channel
  pub socket_path : Option String

unfoldable pub env_required : Outside → String → Result Error String
env_required o key = ok_or (missing_env key) (o.var key)

unfoldable pub env_or : Outside → String → String → String
env_or o key default = unwrap_or (o.var key) default

-- the environment that the first two phases read
abbrev pub world : Outside → String → World
world o fleet_ca_pem = record {
  device_key = o.device_key;
  operational_key = o.operational_key;
  provision_token = o.var "PROVISION_TOKEN";
  provisioning_addr = o.var "PROVISIONING_ADDR";
  bootstrap_addr = o.var "BOOTSTRAP_ADDR";
  provisioned = o.provisioned;
  fleet_ca_pem = fleet_ca_pem;
  connected = o.serves;
  enrolled = o.enrolled;
}

unfoldable pub connect : Outside → String → ClientTlsConfig → Result Error Channel
connect o address tls = elim (o.serves address tls) [
  | ok u ↦ ok (record { address = address; tls = tls })
  | err e ↦ err e
]

-- the third phase, with the certificate, the key and the id that the directory holds
unfoldable pub third_phase : Outside → String → (String × String) × String → Method Disk Error Tasks
unfolding connect env_required env_or ◌>>=◌
third_phase o fleet_ca_pem ready = do
  fleet_addr ← lift (env_required o "FLEET_SERVICE_ADDR")
  fleet_channel ← lift (connect o fleet_addr (mtls_config ready.0.0 ready.0.1 fleet_ca_pem))
  ota_channel ← lift (
      connect o (env_or o "OTA_SERVICE_ADDR" fleet_addr)
        (mtls_config ready.0.0 ready.0.1 fleet_ca_pem))
  pure (record {
    device_id = ready.1;
    fleet_channel = fleet_channel;
    ota_channel = ota_channel;
    socket_path = o.var "SOCKET_PATH";
  })

unfoldable pub main : Outside → Method Disk Error Tasks
unfolding third_phase env_required env_or ◌>>=◌
main o = do
  lift (o.create_dir_all (env_or o "AGENT_DATA_DIR" "/root/.robot-agent"))
  lift (env_required o "DEVICE_SERIAL")
  path ← lift (env_required o "FLEET_CA_CERT_PEM")
  fleet_ca_pem ← lift (o.read_to_string path)
  ready ← start_up (world o fleet_ca_pem)
  third_phase o fleet_ca_pem ready
