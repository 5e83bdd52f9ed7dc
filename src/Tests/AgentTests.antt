-- ===== src/Tests/AgentTests.antt =====
-- The robot's program at concrete inputs.
use robot_fleet.Prelude.{
  ◌≡◌, refl, String, true, false, none, some, [], ◌∷◌, map, ◌==◌, ok, err, is_ok, ◌⊎◌,
}
use robot_fleet.Agent.Error.{io, grpc, transport}
use robot_fleet.Agent.Disk.{Disk, Fault, exists_file, content}
use robot_fleet.Agent.Enrollment.{
  World, EnrollResponse, enroll, is_enrolled, is_provisioned, start_up,
}
use robot_fleet.Agent.Enrollment.Restart.{start_up_again, torn_enrollment_stays}
use robot_fleet.Agent.Update.{Machine, UpdateCommand, apply_update, run_stream}
use robot_fleet.Agent.Update.Installs.{
  Verified, job_of, accepted, apply_update-Verified, every_command_acknowledged,
}

abbrev pub response : EnrollResponse
response = record { device_id = "d1"; operational_cert_pem = "cert"; fleet_ca_chain_pem = "ca" }

abbrev world : World
world = record {
  device_key = record { key_pem = ok "device key"; csr_pem = ok "device request" };
  operational_key = record { key_pem = ok "key"; csr_pem = ok "request" };
  provision_token = some "token";
  provisioning_addr = some "factory";
  bootstrap_addr = some "bootstrap";
  provisioned = ok "device cert";
  fleet_ca_pem = "fleet ca";
  connected = λ addr tls. ok tt;
  enrolled = ok response;
}

-- the services are down
abbrev offline : World
offline = record world {
  fleet_ca_pem = "fleet ca";
  connected = λ addr tls. err (transport "refused");
  provisioned = err (grpc "unavailable");
  enrolled = err (grpc "unavailable");
}

abbrev pub fresh : Disk
fresh = record { files = []; faults = [] }

start_up_again_example :
    start_up offline (start_up world fresh).1
    ≡ (ok (("cert", "key"), "d1"), (start_up world fresh).1)
unfolding start_up is_provisioned exists_file content is_enrolled
start_up_again_example = start_up_again world offline fresh "cert" "key" "d1" refl

abbrev full : Fault
full = record { text = "disk full"; left = none }

abbrev provisioned : Disk
provisioned = record {
  files = ("device.pem", "device cert") ∷ ("device.key", "device key") ∷ [];
  faults = none ∷ none ∷ none ∷ some full ∷ [];
}

torn_enrollment_stays_example :
    let t = (enroll world provisioned).1 in
    ((enroll world provisioned).0 ≡ err (io "disk full"))
    × (is_ok (start_up world t).0 ≡ false)
    × ((start_up world t).1 ≡ t)
unfolding content
torn_enrollment_stays_example =
    torn_enrollment_stays world world provisioned "key" "request" response full [] refl refl refl
      refl refl refl refl

abbrev machine : Machine
machine = record {
  Bytes = String;
  temp_dir = ok tt;
  get = λ url. ok (ok url);
  sha256 = λ b. b;
  save = λ b. ok tt;
  staging = ok tt;
  extract = λ b. ok true;
  has_install_script = λ b. true;
  start_script = λ b. ok tt;
  exit_code = λ b. "0";
}

apply_update-Verified_example :
    ((apply_update machine "url" "sum" []).1 ≡ [])
      × (is_ok (apply_update machine "url" "sum" []).0 ≡ false)
    ⊎ ((bytes : String) × ((apply_update machine "url" "sum" []).1 ≡ bytes ∷ [])
        × Verified machine "url" "sum" bytes
        × (is_ok (apply_update machine "url" "sum" []).0 ≡ ("0" == "0")))
apply_update-Verified_example = apply_update-Verified machine "url" "sum" []

abbrev update : String → UpdateCommand
update id = record {
  update_job_id = id;
  target_version = "2.0.0";
  artifact_url = "url";
  sha256 = "url";
}

every_command_acknowledged_example :
    let q = run_stream machine "d1" (accepted machine (update "j1" ∷ update "j2" ∷ [])) [] in
    (q.0 ≡ ok tt) × (map (job_of machine) q.1.0 ≡ "j1" ∷ "j2" ∷ [])
every_command_acknowledged_example =
    every_command_acknowledged machine "d1" (update "j1" ∷ update "j2" ∷ []) []
