-- ===== src/Device/Joining/Started.antt =====
-- A robot joins a service that has just been started: from the factory manifest to its heartbeats, through
-- the three ports.
use robot_fleet.Prelude.{
  ℕ, ◌<◌, ◌≡◌, refl, ap, ◌∙◌, sym, String, true, false, none, some, List, [], ◌∷◌, ◌++◌, arith,
  Result, ok, eq_refl, ◌||◌, ◌==◌, map, All, length, ◌>>=◌,
}
use robot_fleet.Grpc.{Status}
use robot_fleet.Service.{Host, env_or}
use robot_fleet.Sql.{Conn}
use robot_fleet.Sql.Table.{find, contains, find-append, contains-append}
use robot_fleet.Pki.Error as Pki
use robot_fleet.Pki.Csr.{Rcgen, sign_csr}
use robot_fleet.Pki.Mtls.{X509, extract_serial, verify_signed_by}
use robot_fleet.Device.Store.{
  DeviceRecord, ManifestEntry, Tables, id_of, entry_serial, new_record, unclaimed,
}
use robot_fleet.Device.Provisioning.{ProvisionDeviceRequest, device_sign, provision_device}
use robot_fleet.Device.Enrollment.{EnrollResult, Inputs, new_device, fleet_sign}
use robot_fleet.Device.Server.{BootstrapEnrollRequest, bootstrap_enroll, stream_heartbeat}
use robot_fleet.Device.Heartbeat.{HeartbeatRequest}
use robot_fleet.Device.Heartbeat.Liveness.{pings, calm_for, seen_by, heartbeats_answered}
use robot_fleet.Device.Joining.{
  IsNew, provisioned_tables, provision_new, enrolled, enroll_new, provisioned_open,
}
use robot_fleet.Device.Startup.{start_store}
use robot_fleet.Device.Startup.Ports.{Listeners, start}
use robot_fleet.Device.Startup.Seeding.{IsIdle, first_of, seeded_entry, start_store_others}
use robot_fleet.Device.Startup.Manifest.{Line, IsLine, entry, manifest}
use robot_fleet.Device.Startup.Ports.Trust.{start_done, listeners_trust}

module _ (host : Host) where
  -- what robots and the operator bring along
  module _ (rcgen : Rcgen) (x509 : X509) (ports : Listeners host) (signed_at claimed_at : ℕ)
      (req : ProvisionDeviceRequest) (inp : Inputs) (csr_pem firmware : String)
      (chain : List x509.CertificateDer) where
    abbrev pub provisioned : Conn Tables → Result Status String × Conn Tables
    provisioned = provision_device rcgen ports.provisioning.service signed_at claimed_at req

    abbrev pub enrollment : BootstrapEnrollRequest
    enrollment = record { serial = req.serial; csr_pem = csr_pem; firmware = firmware }

    abbrev pub joined : Conn Tables → Result Status EnrollResult × Conn Tables
    joined c =
        bootstrap_enroll rcgen x509 ports.bootstrap.service.enrollment
          ports.bootstrap.service.device_ca_pem inp (some chain) enrollment (provisioned c).1

    abbrev result : String → EnrollResult
    result cert = enrolled rcgen x509 ports.bootstrap.service.enrollment inp csr_pem firmware cert

    abbrev pub row : String → String → DeviceRecord
    row model cert = new_record inp.id inp.stored_at (new_device req.serial model firmware cert)

    -- the two handlers, one after the other
    joined_new :
        (e : ManifestEntry) (c : Conn Tables) (cert opcert : String)
        → IsIdle c
        → IsNew req.serial inp.id c.tables
        → ((req.serial == "") || (req.csr_pem == "") || (req.provision_token == "")) ≡ false
        → find entry_serial req.serial c.tables.factory_manifest ≡ some e
        → e.token ≡ req.provision_token
        → e.provisioned_at ≡ none
        → device_sign rcgen ports.provisioning.service signed_at claimed_at req.csr_pem ≡ ok cert
        → extract_serial x509 chain ≡ ok req.serial
        → verify_signed_by x509 chain ports.bootstrap.service.device_ca_pem ≡ ok tt
        → fleet_sign rcgen x509 ports.bootstrap.service.enrollment inp.signed_at csr_pem ≡ ok opcert
        → ((provisioned c).0 ≡ ok cert)
          × ((joined c).0 ≡ ok (result opcert))
          × ((joined c).1.faults ≡ [])
          × ((joined c).1.tables.devices ≡ c.tables.devices ++ row e.model opcert ∷ [])
    unfolding bootstrap_enroll ◌>>=◌
    joined_new e c cert opcert idle new full found same fresh sign own signed sign' =
        let first =
          provision_new rcgen ports.provisioning.service signed_at claimed_at req e c cert idle full
            found same fresh sign in
        let opened = provisioned_open req.serial e.model claimed_at c.tables new.unopened in
        let t = provisioned_tables claimed_at req.serial e.model c.tables in
        let second =
          enroll_new rcgen x509 ports.bootstrap.service.enrollment inp csr_pem firmware req.serial
            (unclaimed req.serial e.model) (record c { tables = t }) chain
            ports.bootstrap.service.device_ca_pem opcert idle own signed opened.0 refl
            (rw opened.1 new.id_free) (rw opened.1 new.serial_free) sign' in
        ground (arith, first, second, opened)

-- the heartbeats of a device that was stored last
pinged :
    (show_status : Status → String) (t : ℕ) (first : HeartbeatRequest)
    (ps : List (ℕ × HeartbeatRequest)) (room : ℕ) (rows : List DeviceRecord) (r : DeviceRecord)
    (q : Conn Tables)
    → q.faults ≡ []
    → q.tables.devices ≡ rows ++ r ∷ []
    → contains id_of r.id rows ≡ false
    → first.device_id ≡ r.id
    → length ps < room
    → let out = stream_heartbeat show_status (pings ((t, first) ∷ ps)) room q in
      (out.0 ≡ calm_for ((t, first) ∷ ps))
      × (find id_of r.id out.1.tables.devices ≡ seen_by ((t, first) ∷ ps) (some r))
unfolding stream_heartbeat
pinged show_status t first ps room rows r q works stored free same fits =
    let known : contains id_of first.device_id q.tables.devices ≡ true =
      rw (stored, same, contains-append id_of) (ground (arith, eq_refl r.id)) in
    let shown : find id_of first.device_id q.tables.devices ≡ some r =
      rw (stored, same, find-append id_of) (ground (arith, free, eq_refl r.id)) in
    let (answered, seen) = heartbeats_answered show_status t first ps room q works known fits in
    let out = stream_heartbeat show_status (pings ((t, first) ∷ ps)) room q in
    (
      answered,
      ap (λ (k : String). find id_of k out.1.tables.devices) (sym same)
          ∙ seen
          ∙ ap (seen_by ((t, first) ∷ ps)) shown,
    )

-- What rcgen and x509_parser document of a CA whose certificate and key belong together: what is issued
-- can be read, is signed by the CA and names the subject of the request.
pub record IsCa (rcgen : Rcgen) (x509 : X509) (common_name : String → Result Pki.Error String)
    (ca_cert_pem ca_key_pem : String) : Type 0 where
  pub issued :
      (now validity_days : ℕ) (csr_pem cert_pem : String) (chain : List x509.CertificateDer)
      → sign_csr rcgen now csr_pem ca_cert_pem ca_key_pem validity_days ≡ ok cert_pem
      → x509.certs cert_pem ≡ ok chain
      → (verify_signed_by x509 chain ca_cert_pem ≡ ok tt)
        × (extract_serial x509 chain ≡ common_name csr_pem)

-- A robot of the factory manifest joins the fleet: the service starts, with a manifest whose first line
-- about the robot gives its token; provisioning then issues a certificate for the robot's request, and
-- with this very certificate enrollment returns an operational one, under an id that from then on has
-- every heartbeat answered, and whose record has the serial, the model of the line, the firmware and
-- the certificate, is active, and was last seen at the last heartbeat. The registry knows neither the
-- serial nor the id before, nothing fails, the request names the serial as its subject, both CAs sign,
-- and the Device CA's certificate and key belong together.
pub robot_joins :
    (host : Host) (open_store : String → Result String (Conn Tables)) (rcgen : Rcgen) (x509 : X509)
    (common_name : String → Result Pki.Error String) (ports : Listeners host) (c0 c : Conn Tables)
    (lines : List Line) (e : ManifestEntry) (signed_at claimed_at : ℕ)
    (req : ProvisionDeviceRequest) (inp : Inputs) (csr_pem firmware cert opcert : String)
    (chain : List x509.CertificateDer) (show_status : Status → String) (t : ℕ)
    (first : HeartbeatRequest) (ps : List (ℕ × HeartbeatRequest)) (room : ℕ)
    → start host open_store ≡ ok (ok ports, c)
    → open_store (env_or host "DB_PATH" "./fleet.db") ≡ ok c0
    → host.var "FACTORY_MANIFEST" ≡ some (manifest lines)
    → All IsLine lines
    → IsIdle c0
    → IsNew req.serial inp.id c0.tables
    → find entry_serial req.serial c0.tables.factory_manifest ≡ none
    → first_of req.serial (map (λ l. some (entry l)) lines) ≡ some e
    → e.token ≡ req.provision_token
    → ((req.serial == "") || (req.csr_pem == "") || (req.provision_token == "")) ≡ false
    → IsCa rcgen x509 common_name ports.provisioning.service.device_ca_cert_pem
        ports.provisioning.service.device_ca_key_pem
    → common_name req.csr_pem ≡ ok req.serial
    → device_sign rcgen ports.provisioning.service signed_at claimed_at req.csr_pem ≡ ok cert
    → x509.certs cert ≡ ok chain
    → fleet_sign rcgen x509 ports.bootstrap.service.enrollment inp.signed_at csr_pem ≡ ok opcert
    → first.device_id ≡ inp.id
    → length ps < room
    → let p = provision_device rcgen ports.provisioning.service signed_at claimed_at req c in
      let q =
        bootstrap_enroll rcgen x509 ports.bootstrap.service.enrollment
          ports.bootstrap.service.device_ca_pem inp
          (some chain)
          (record { serial = req.serial; csr_pem = csr_pem; firmware = firmware })
          p.1 in
      let out = stream_heartbeat show_status (pings ((t, first) ∷ ps)) room q.1 in
      (p.0 ≡ ok cert)
      × (q.0
          ≡ ok (enrolled rcgen x509 ports.bootstrap.service.enrollment inp csr_pem firmware opcert))
      × (out.0 ≡ calm_for ((t, first) ∷ ps))
      × (find id_of inp.id out.1.tables.devices
          ≡ seen_by ((t, first) ∷ ps) (
              some
                (new_record inp.id inp.stored_at (new_device req.serial e.model firmware opcert))))
unfolding stream_heartbeat
robot_joins host open_store rcgen x509 common_name ports c0 c lines e signed_at claimed_at req inp
      csr_pem firmware cert opcert chain show_status t first ps room started opened variable plain
      idle new unknown line token full ca named sign chained sign' same fits =
    let (s, set_up, c1, opened', seeded) = start_done host open_store ports c started in
    let d = (start_store (some (manifest lines)) c0).1 in
    let after : c ≡ d = ground (arith, seeded, opened, opened', variable) in
    let (found, calm, fresh) = seeded_entry req.serial lines e c0 plain idle unknown line in
    let others = start_store_others (some (manifest lines)) c0 idle.1 in
    let new' : IsNew req.serial inp.id d.tables = record {
      id_free = rw others.0 new.id_free;
      serial_free = rw others.0 new.serial_free;
      unopened = rw others.1 new.unopened;
    } in
    let (verified, own) = ca.issued signed_at 365 req.csr_pem cert chain sign chained in
    let agree = (listeners_trust host open_store s ports set_up).3 in
    let (p, q, works, stored) =
      joined_new host rcgen x509 ports signed_at claimed_at req inp csr_pem firmware chain e d cert
        opcert calm new' full found token fresh sign (own ∙ named) (rw agree verified) sign' in
    let (answered, seen) =
      pinged show_status t first ps room d.tables.devices
        (new_record inp.id inp.stored_at (new_device req.serial e.model firmware opcert)) _ works
        stored new'.id_free same fits in
    rw after (p, q, answered, seen)
