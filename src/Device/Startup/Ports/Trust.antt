-- ===== src/Device/Startup/Ports/Trust.antt =====
-- What a start that leads to running servers has gone through, and whom the servers let in.
use robot_fleet.Prelude.{◌≡◌, String, none, some, arith, Result, ok, map_err}
use robot_fleet.Prelude.Outcome.{>>=-eq-ok}
use robot_fleet.Prelude.Results.Inversion.{map_err-eq-ok}
use robot_fleet.Service.{Host, not_opened, env_or}
use robot_fleet.Sql.{Conn}
use robot_fleet.Device.Store.{Tables}
use robot_fleet.Device.Startup.{start_store}
use robot_fleet.Device.Startup.Ports.{Settings, Listeners, settings, listeners, start}

module _ (host : Host) (open_store : String → Result String (Conn Tables)) where
  -- what a start that leads to running servers has gone through
  pub start_done :
      (ports : Listeners host) (c : Conn Tables)
      → start host open_store ≡ ok (ok ports, c)
      → (s : Settings host) × (listeners host s ≡ ok ports)
        × (c0 : Conn Tables) × (open_store (env_or host "DB_PATH" "./fleet.db") ≡ ok c0)
        × (c ≡ (start_store (host.var "FACTORY_MANIFEST") c0).1)
  unfolding start
  start_done ports c h =
      let (s, e, k) = >>=-eq-ok (settings host) _ h in
      let (c0, e', k') = >>=-eq-ok (map_err not_opened (open_store _)) _ k in
      (s, ground arith, c0, map_err-eq-ok not_opened _ e', ground arith)

  pub listeners_trust :
      (s : Settings host) (ports : Listeners host)
      → listeners host s ≡ ok ports
      → (ports.fleet.tls.client_ca_root
          ≡ some (host.as_bytes ports.fleet.service.enrollment.fleet_ca_cert_pem))
        × (ports.bootstrap.tls.client_ca_root
            ≡ some (host.as_bytes ports.bootstrap.service.device_ca_pem))
        × (ports.provisioning.tls.client_ca_root ≡ none)
        × (ports.bootstrap.service.device_ca_pem ≡ ports.provisioning.service.device_ca_cert_pem)
        × (ports.fleet.service ≡ ports.bootstrap.service)
  unfolding listeners
  listeners_trust s ports h = ground arith

  -- Once the service runs, the port of the fleet lets in who has a certificate of the very CA whose
  -- certificates it issues, the port for enrollment who has one of the CA that the enrollment checks,
  -- which is the one that the port for provisioning signs with, and provisioning asks for none. The
  -- first two run the same service.
  pub ports_trust :
      (ports : Listeners host) (c : Conn Tables)
      → start host open_store ≡ ok (ok ports, c)
      → (ports.fleet.tls.client_ca_root
          ≡ some (host.as_bytes ports.fleet.service.enrollment.fleet_ca_cert_pem))
        × (ports.bootstrap.tls.client_ca_root
            ≡ some (host.as_bytes ports.bootstrap.service.device_ca_pem))
        × (ports.provisioning.tls.client_ca_root ≡ none)
        × (ports.bootstrap.service.device_ca_pem ≡ ports.provisioning.service.device_ca_cert_pem)
        × (ports.fleet.service ≡ ports.bootstrap.service)
  ports_trust ports c h =
      let (s, set_up, c0, opened, seeded) = start_done ports c h in listeners_trust s ports set_up
