-- ===== src/Tests/RobotStartTests.antt =====
-- A robot that comes to its tasks, at a concrete environment: a fresh directory, with the services up.
use robot_fleet.Prelude.{◌≡◌, refl, String, none, some, List, [], ◌∷◌, ok, err, unwrap_or}
use robot_fleet.Agent.Error.{grpc}
use robot_fleet.Agent.Startup.Again.{main_again}
use robot_fleet.Agent.Disk.{content, exists_file}
use robot_fleet.Agent.Enrollment.{mtls_config, start_up, is_provisioned, is_enrolled}
use robot_fleet.Agent.Enrollment.Restart.{read}
use robot_fleet.Agent.Startup.{Outside, Tasks, main}
use robot_fleet.Agent.Startup.Trust.{tasks_trust}
use robot_fleet.Tests.AgentTests.{response, fresh}

abbrev settings : List (String × String)
settings =
    ("DEVICE_SERIAL", "SN-1")
    ∷ ("FLEET_CA_CERT_PEM", "ca.pem")
    ∷ ("PROVISION_TOKEN", "token")
    ∷ ("PROVISIONING_ADDR", "factory")
    ∷ ("BOOTSTRAP_ADDR", "bootstrap")
    ∷ ("FLEET_SERVICE_ADDR", "fleet")
    ∷ []

abbrev outside : Outside
outside = record {
  var = λ key. content key settings;
  create_dir_all = λ path. ok tt;
  read_to_string = λ path. ok "fleet ca";
  serves = λ address tls. ok tt;
  device_key = record { key_pem = ok "device key"; csr_pem = ok "device request" };
  operational_key = record { key_pem = ok "key"; csr_pem = ok "request" };
  provisioned = ok "device cert";
  enrolled = ok response;
}

abbrev tasks : Tasks
tasks =
    let tls = mtls_config "cert" "key" "fleet ca" in
    record {
      device_id = "d1";
      fleet_channel = record { address = "fleet"; tls = tls };
      ota_channel = record { address = "fleet"; tls = tls };
      socket_path = none;
    }

comes_to_tasks : (main outside fresh).0 ≡ ok tasks
unfolding main start_up is_provisioned exists_file content is_enrolled
comes_to_tasks = refl

tasks_trust_example :
    let left = (main outside fresh).1 in
    (path ca cert key : String) × (outside.var "FLEET_CA_CERT_PEM" ≡ some path)
    × (outside.read_to_string path ≡ ok ca)
    × (read "operational.pem" left ≡ some cert)
    × (read "operational.key" left ≡ some key)
    × (read "device-id" left ≡ some tasks.device_id)
    × (tasks.fleet_channel.tls ≡ mtls_config cert key ca)
    × (tasks.ota_channel.tls ≡ mtls_config cert key ca)
    × (outside.var "FLEET_SERVICE_ADDR" ≡ some tasks.fleet_channel.address)
    × (tasks.ota_channel.address
        ≡ unwrap_or (outside.var "OTA_SERVICE_ADDR") tasks.fleet_channel.address)
tasks_trust_example = tasks_trust outside fresh tasks comes_to_tasks

-- the services are up, but nothing is left of the factory's settings
abbrev later : Outside
later = record outside {
  var = λ key. content key (
      ("DEVICE_SERIAL", "SN-1")
      ∷ ("FLEET_CA_CERT_PEM", "ca.pem")
      ∷ ("FLEET_SERVICE_ADDR", "fleet")
      ∷ []);
  provisioned = err (grpc "already provisioned");
  enrolled = err (grpc "already claimed");
}

main_again_example :
    let left = (main outside fresh).1 in
    (again : Tasks) × (main later left ≡ (ok again, left))
    × (again.device_id ≡ "d1")
    × (again.fleet_channel.tls.identity ≡ ("cert", "key"))
    × (again.fleet_channel.tls.ca_certificate ≡ "fleet ca")
unfolding content
main_again_example =
    main_again outside later fresh tasks "SN-1" "ca.pem" "fleet ca" "fleet" comes_to_tasks refl refl
      refl refl refl (λ a tls. refl)
