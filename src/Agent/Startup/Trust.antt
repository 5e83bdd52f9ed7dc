-- ===== src/Agent/Startup/Trust.antt =====
-- What the tasks of a robot are given: whom they trust and what they show.
use robot_fleet.Prelude.{◌≡◌, ap, ◌∙◌, sym, String, some, arith, ok, unwrap_or, ◌>>=◌}
use robot_fleet.Prelude.Results.Inversion.{continue-eq-ok, >>=-eq-ok}
use robot_fleet.Agent.Disk.{Disk}
use robot_fleet.Agent.Enrollment.{mtls_config, start_up}
use robot_fleet.Agent.Enrollment.Restart.{read, start_up_reads}
use robot_fleet.Agent.Startup.{
  Outside, Tasks, env_required, env_or, world, connect, third_phase, main,
}

pub third_phase_done :
    (o : Outside) (ca : String) (ready : (String × String) × String) (d : Disk) (t : Tasks)
    → (third_phase o ca ready d).0 ≡ ok t
    → ((third_phase o ca ready d).1 ≡ d)
      × (o.var "FLEET_SERVICE_ADDR" ≡ some t.fleet_channel.address)
      × (t.ota_channel.address ≡ unwrap_or (o.var "OTA_SERVICE_ADDR") t.fleet_channel.address)
      × (t.fleet_channel.tls ≡ mtls_config ready.0.0 ready.0.1 ca)
      × (t.ota_channel.tls ≡ mtls_config ready.0.0 ready.0.1 ca)
      × (t.device_id ≡ ready.1)
unfolding third_phase connect env_required env_or ◌>>=◌
third_phase_done o ca ready d t h = ground arith

pub main_done :
    (o : Outside) (d : Disk) (t : Tasks)
    → (main o d).0 ≡ ok t
    → (path ca : String) × (ready : (String × String) × String) × (o.var "FLEET_CA_CERT_PEM"
        ≡ some path)
      × (o.read_to_string path ≡ ok ca)
      × ((start_up (world o ca) d).0 ≡ ok ready)
      × (main o d ≡ third_phase o ca ready (start_up (world o ca) d).1)
unfolding main env_required ◌>>=◌
main_done o d t h =
    let (u, _, h1, e1) = continue-eq-ok (o.create_dir_all _) _ d t h in
    let (serial, _, h2, e2) = continue-eq-ok (env_required o "DEVICE_SERIAL") _ d t h1 in
    let (path, named, h3, e3) = continue-eq-ok (env_required o "FLEET_CA_CERT_PEM") _ d t h2 in
    let (ca, held, h4, e4) = continue-eq-ok (o.read_to_string path) _ d t h3 in
    let (ready, started, h5, e5) = >>=-eq-ok (start_up (world o ca)) _ d t h4 in
    (path, ca, ready, ground arith, held, started, e1 ∙ e2 ∙ e3 ∙ e4 ∙ e5)

-- A robot that comes to its tasks runs them under the id that its directory holds. On both of its
-- connections the CA that it trusts is the content of the file that FLEET_CA_CERT_PEM names, and it
-- shows the operational certificate and key that the directory holds. The updates come
-- from OTA_SERVICE_ADDR, or from the address of the fleet service if that is not set.
pub tasks_trust :
    (o : Outside) (d : Disk) (t : Tasks)
    → (main o d).0 ≡ ok t
    → let left = (main o d).1 in
      (path ca cert key : String) × (o.var "FLEET_CA_CERT_PEM" ≡ some path)
      × (o.read_to_string path ≡ ok ca)
      × (read "operational.pem" left ≡ some cert)
      × (read "operational.key" left ≡ some key)
      × (read "device-id" left ≡ some t.device_id)
      × (t.fleet_channel.tls ≡ mtls_config cert key ca)
      × (t.ota_channel.tls ≡ mtls_config cert key ca)
      × (o.var "FLEET_SERVICE_ADDR" ≡ some t.fleet_channel.address)
      × (t.ota_channel.address ≡ unwrap_or (o.var "OTA_SERVICE_ADDR") t.fleet_channel.address)
tasks_trust o d t h =
    let (path, ca, ready, named, held, started, done) = main_done o d t h in
    let s = (start_up (world o ca) d).1 in
    let (same, fleet, ota, f, u, own) =
      third_phase_done o ca ready s t (sym (ap (λ r. r.0) done) ∙ h) in
    let (_, _, c, k, i) = start_up_reads (world o ca) d ready.0.0 ready.0.1 ready.1 started in
    (
      path,
      ca,
      ready.0.0,
      ready.0.1,
      named,
      held,
      rw (done, same) c,
      rw (done, same) k,
      rw (done, same, own) i,
      f,
      u,
      fleet,
      ota,
    )
