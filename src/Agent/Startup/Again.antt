-- ===== src/Agent/Startup/Again.antt =====
-- A robot's `main`, run again on the directory that an earlier run left.
use robot_fleet.Prelude.{◌≡◌, refl, ap, ◌∙◌, sym, String, some, arith, ok, ◌>>=◌}
use robot_fleet.Agent.Disk.{Disk}
use robot_fleet.Agent.Enrollment.{ClientTlsConfig, mtls_config, start_up}
use robot_fleet.Agent.Enrollment.Restart.{start_up_again}
use robot_fleet.Agent.Startup.{
  Outside, Tasks, env_required, env_or, world, connect, third_phase, main,
}
use robot_fleet.Agent.Startup.Trust.{third_phase_done, main_done}

abbrev identity_of : ClientTlsConfig → String × String
identity_of tls = tls.identity

abbrev ca_of : ClientTlsConfig → String
ca_of tls = tls.ca_certificate

main_runs :
    (o : Outside) (s : Disk) (ready : (String × String) × String) (serial path ca address : String)
    → o.create_dir_all (env_or o "AGENT_DATA_DIR" "/root/.robot-agent") ≡ ok tt
    → o.var "DEVICE_SERIAL" ≡ some serial
    → o.var "FLEET_CA_CERT_PEM" ≡ some path
    → o.read_to_string path ≡ ok ca
    → start_up (world o ca) s ≡ (ok ready, s)
    → main o s ≡ third_phase o ca ready s
unfolding main env_required ◌>>=◌
main_runs o s ready serial path ca address dir h k r started = ground arith

third_phase_runs :
    (o : Outside) (s : Disk) (ready : (String × String) × String) (ca address : String)
    → o.var "FLEET_SERVICE_ADDR" ≡ some address
    → ((a : String) (tls : ClientTlsConfig) → o.serves a tls ≡ ok tt)
    → (t : Tasks) × (third_phase o ca ready s ≡ (ok t, s))
      × (t.device_id ≡ ready.1)
      × (t.fleet_channel.tls ≡ mtls_config ready.0.0 ready.0.1 ca)
unfolding third_phase connect env_required env_or ◌>>=◌
third_phase_runs o s ready ca address named serves =
    let tls = mtls_config ready.0.0 ready.0.1 ca in
    let ota = env_or o "OTA_SERVICE_ADDR" address in
    let t : Tasks = record {
      device_id = ready.1;
      fleet_channel = record { address = address; tls = tls };
      ota_channel = record { address = ota; tls = tls };
      socket_path = o.var "SOCKET_PATH";
    } in
    (t, ground (arith, named, serves address tls, serves ota tls), refl, refl)

-- A robot that came to its tasks comes to them again on the same directory, with no write, under the same
-- id and showing the same certificate and key, and it needs no token, no answer of the provisioning or
-- the enrollment, and no key generated. The later environment names a serial, a readable CA file and the
-- address of the fleet service, the data directory can be made, and the connections come about.
pub main_again :
    (o later : Outside) (d : Disk) (t : Tasks) (serial path ca address : String)
    → (main o d).0 ≡ ok t
    → later.create_dir_all (env_or later "AGENT_DATA_DIR" "/root/.robot-agent") ≡ ok tt
    → later.var "DEVICE_SERIAL" ≡ some serial
    → later.var "FLEET_CA_CERT_PEM" ≡ some path
    → later.read_to_string path ≡ ok ca
    → later.var "FLEET_SERVICE_ADDR" ≡ some address
    → ((a : String) (tls : ClientTlsConfig) → later.serves a tls ≡ ok tt)
    → (again : Tasks) × (main later (main o d).1 ≡ (ok again, (main o d).1))
      × (again.device_id ≡ t.device_id)
      × (again.fleet_channel.tls.identity ≡ t.fleet_channel.tls.identity)
      × (again.fleet_channel.tls.ca_certificate ≡ ca)
main_again o later d t serial path ca address h dir named held read served serves =
    let (_, ca0, ready, _, _, started, done) = main_done o d t h in
    let s = (start_up (world o ca0) d).1 in
    let (same, _, _, tls, _, own) =
      third_phase_done o ca0 ready s t (sym (ap (λ r. r.0) done) ∙ h) in
    let ready_again =
      start_up_again (world o ca0) (world later ca) d ready.0.0 ready.0.1 ready.1 started in
    let (again, result, id, shown) = third_phase_runs later s ready ca address served serves in
    let run = main_runs later s ready serial path ca address dir named held read ready_again in
    (
      again,
      rw (done, same) (run ∙ result),
      id ∙ sym own,
      ap identity_of shown ∙ sym (ap identity_of tls),
      ap ca_of shown,
    )
