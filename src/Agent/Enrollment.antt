-- ===== src/Agent/Enrollment.antt =====
-- robot-agent/src/enrollment.rs, provisioning.rs and the three phases of main.rs up to the loading of
-- the credentials. The answers of the two services, what rcgen generates and the
-- environment are arguments; `generate_csr` is that of pki/src/csr.rs. Logging is left out.
pub mod Restart
use robot_fleet.Prelude.{
  String, Bool, true, false, Option, none, some, Result, ok, err, Method, pure, fail, lift, ◌>>=◌,
  ◌>>◌, if◌then◌else◌,
}
use robot_fleet.Prelude.Outcome.{ok_or}
use robot_fleet.Agent.Error.{Error, missing_env}
use robot_fleet.Agent.Disk.{Disk, exists_file, read_to_string, write}

-- tonic's ClientTlsConfig
pub record ClientTlsConfig : Type 0 where
  pub ca_certificate : String
  pub identity : String × String

abbrev pub mtls_config : String → String → String → ClientTlsConfig
mtls_config cert_pem key_pem ca_pem = record {
  ca_certificate = ca_pem;
  identity = (cert_pem, key_pem);
}

pub record EnrollResponse : Type 0 where
  pub device_id : String
  pub operational_cert_pem : String
  pub fleet_ca_chain_pem : String

-- what rcgen makes in one `generate_csr`: the key's PEM and the request's
pub record Generated : Type 0 where
  pub key_pem : Result Error String
  pub csr_pem : Result Error String

-- what one start of the program meets
pub record World : Type 0 where
  pub device_key : Generated
  pub operational_key : Generated
  pub provision_token : Option String
  pub provisioning_addr : Option String
  pub bootstrap_addr : Option String
  -- the answer of ProvisionDevice, a failed connection included
  pub provisioned : Result Error String
  -- the file that FLEET_CA_CERT_PEM names
  pub fleet_ca_pem : String
  -- what tonic says of a configuration and of the connection to an address with it
  pub connected : String → ClientTlsConfig → Result Error (Unit {0})
  -- the answer of BootstrapEnroll
  pub enrolled : Result Error EnrollResponse

unfoldable pub is_enrolled : Disk → Bool
is_enrolled = exists_file "operational.pem"

unfoldable pub is_provisioned : Disk → Bool
is_provisioned = exists_file "device.pem"

unfoldable pub load_device_cert : Method Disk Error (String × String)
unfolding read_to_string ◌>>=◌
load_device_cert = do
  cert ← read_to_string "device.pem"
  key ← read_to_string "device.key"
  pure (cert, key)

unfoldable pub load_operational_creds : Method Disk Error (String × String)
unfolding read_to_string ◌>>=◌
load_operational_creds = do
  cert ← read_to_string "operational.pem"
  key ← read_to_string "operational.key"
  pure (cert, key)

unfoldable pub load_device_id : Method Disk Error String
unfolding read_to_string
load_device_id = read_to_string "device-id"

-- The key is written before the request is made.
unfoldable pub generate_csr : Generated → String → Method Disk Error String
unfolding write ◌>>=◌
generate_csr g key_path = do key ← lift g.key_pem; write key_path key; lift g.csr_pem

unfoldable pub provision : World → Method Disk Error (Unit {0})
unfolding generate_csr write ◌>>=◌
provision w = do
  csr ← generate_csr w.device_key "device.key"
  cert ← lift w.provisioned
  write "device.pem" cert

unfoldable pub enroll : World → Method Disk Error (Unit {0})
unfolding generate_csr write ◌>>=◌
enroll w = do
  csr ← generate_csr w.operational_key "operational.key"
  response ← lift w.enrolled
  write "operational.pem" response.operational_cert_pem
  write "fleet-ca-chain.pem" response.fleet_ca_chain_pem
  write "device-id" response.device_id

unfoldable pub first_phase : World → Method Disk Error (Unit {0})
unfolding provision ◌>>=◌
first_phase w d = elim (is_provisioned d) [
  | true ↦ (ok tt, d)
  | false ↦
      (do
        lift (ok_or (missing_env "PROVISION_TOKEN") w.provision_token)
        lift (ok_or (missing_env "PROVISIONING_ADDR") w.provisioning_addr)
        provision w)
        d
]

unfoldable pub second_phase : World → Method Disk Error (Unit {0})
unfolding enroll load_device_cert ◌>>=◌
second_phase w d = elim (is_enrolled d) [
  | true ↦ (ok tt, d)
  | false ↦
      (do
        device ← load_device_cert
        bootstrap_addr ← lift (ok_or (missing_env "BOOTSTRAP_ADDR") w.bootstrap_addr)
        lift (w.connected bootstrap_addr (mtls_config device.0 device.1 w.fleet_ca_pem))
        enroll w)
        d
]

-- the result is the certificate, the key and the id that the third phase runs with
unfoldable pub start_up : World → Method Disk Error ((String × String) × String)
unfolding first_phase second_phase load_operational_creds load_device_id ◌>>=◌
start_up w = do
  first_phase w
  second_phase w
  creds ← load_operational_creds
  id ← load_device_id
  pure (creds, id)
