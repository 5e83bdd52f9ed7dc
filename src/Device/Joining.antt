-- ===== src/Device/Joining.antt =====
-- How a robot joins the fleet: provision_device, then bootstrap_enroll, then a stream of heartbeats, on the
-- same store.

pub mod Started
use robot_fleet.Prelude.{
  ℕ, ◌≡◌, refl, ap, ◌∙◌, String, false, Option, none, some, List, [], ◌∷◌, ◌++◌, arith, Result, ok,
  eq_refl, ◌||◌, ◌==◌, ◌>>=◌,
}
use robot_fleet.Sql.{Conn}
use robot_fleet.Sql.Table.{
  find, contains, find-append, contains-append, contains-is_some, find-modify,
}
use robot_fleet.Pki.Csr.{Rcgen}
use robot_fleet.Pki.Mtls.{X509, extract_serial, verify_signed_by}
use robot_fleet.Device.Store.{
  NewDevice, DeviceRecord, PreEnrollment, ManifestEntry, Tables, id_of, serial_of, claim_serial,
  entry_serial, new_record, unclaimed, set_claimed, set_provisioned, insert_unclaimed,
  create_device, lookup_and_claim, claim_manifest_entry,
}
use robot_fleet.Device.Provisioning.{
  ProvisionDeviceRequest, ProvisioningServer, device_sign, provision_device,
}
use robot_fleet.Device.Enrollment.{
  EnrollmentService, EnrollResult, Inputs, new_device, fleet_sign, expiry, admit, bootstrap_enroll,
}
use robot_fleet.Device.Enrollment.Caller.{authenticate}
use robot_fleet.Device.Startup.Seeding.{IsIdle}

-- The registry knows neither the serial nor the id, and no enrollment of the serial is open.
pub record IsNew (serial id : String) (t : Tables) : Type 0 where
  pub id_free : contains id_of id t.devices ≡ false
  pub serial_free : contains serial_of serial t.devices ≡ false
  pub unopened : contains claim_serial serial t.pre_enrollment ≡ false

abbrev pub provisioned_tables : ℕ → String → String → Tables → Tables
provisioned_tables now serial model t =
    (insert_unclaimed serial model (set_provisioned now serial t).1).1

claim_entry :
    (serial token : String) (now : ℕ) (e : ManifestEntry) (c : Conn Tables)
    → IsIdle c
    → find entry_serial serial c.tables.factory_manifest ≡ some e
    → e.token ≡ token
    → e.provisioned_at ≡ none
    → claim_manifest_entry now serial token c
      ≡ (ok e.model, record c { tables = provisioned_tables now serial e.model c.tables })
unfolding claim_manifest_entry
claim_entry serial token now e c idle found same fresh =
    ground (arith, found, same, fresh, eq_refl token)

-- Provisioning opens the enrollment of the serial and leaves the devices alone.
pub provisioned_open :
    (serial model : String) (now : ℕ) (t : Tables)
    → contains claim_serial serial t.pre_enrollment ≡ false
    → (find claim_serial serial (provisioned_tables now serial model t).pre_enrollment
        ≡ some (unclaimed serial model))
      × ((provisioned_tables now serial model t).devices ≡ t.devices)
unfolding set_provisioned insert_unclaimed
provisioned_open serial model now t free = ground (
  arith,
  free,
  eq_refl serial,
  find-append claim_serial serial (unclaimed serial model) t.pre_enrollment,
)

claim :
    (serial : String) (r : PreEnrollment) (c : Conn Tables)
    → IsIdle c
    → find claim_serial serial c.tables.pre_enrollment ≡ some r
    → r.claimed ≡ 0
    → lookup_and_claim serial c ≡ (
      ok (record { serial = serial; model = r.model }),
      record c { tables = (set_claimed serial c.tables).1 },
    )
unfolding lookup_and_claim
claim serial r c idle found fresh = ground (arith, found, fresh)

create :
    (id : String) (now : ℕ) (d : NewDevice) (c : Conn Tables)
    → IsIdle c
    → contains id_of id c.tables.devices ≡ false
    → contains serial_of d.serial c.tables.devices ≡ false
    → create_device id now d c ≡ (
      ok (new_record id now d),
      record c {
        tables = record c.tables { devices = c.tables.devices ++ new_record id now d ∷ [] };
      },
    )
unfolding create_device
create id now d c idle free fresh = ground arith

module _ (rcgen : Rcgen) (server : ProvisioningServer) (signed_at claimed_at : ℕ) where
  pub provision_new :
      (req : ProvisionDeviceRequest) (e : ManifestEntry) (c : Conn Tables) (cert : String)
      → IsIdle c
      → ((req.serial == "") || (req.csr_pem == "") || (req.provision_token == "")) ≡ false
      → find entry_serial req.serial c.tables.factory_manifest ≡ some e
      → e.token ≡ req.provision_token
      → e.provisioned_at ≡ none
      → device_sign rcgen server signed_at claimed_at req.csr_pem ≡ ok cert
      → provision_device rcgen server signed_at claimed_at req c
        ≡ (ok cert, record c { tables = provisioned_tables claimed_at req.serial e.model c.tables })
  unfolding provision_device ◌>>=◌
  provision_new req e c cert idle full found same fresh signed = ground (
    arith,
    full,
    signed,
    claim_entry req.serial req.provision_token claimed_at e c idle found same fresh,
  )

module _ (rcgen : Rcgen) (x509 : X509) (svc : EnrollmentService) (inp : Inputs)
    (csr_pem firmware : String) where
  abbrev pub enrolled_tables : String → String → String → Tables → Tables
  enrolled_tables serial model cert t = record (set_claimed serial t).1 {
    devices =
        t.devices ++ new_record inp.id inp.stored_at (new_device serial model firmware cert) ∷ [];
  }

  abbrev pub enrolled : String → EnrollResult
  enrolled cert = record {
    device_id = inp.id;
    operational_cert_pem = cert;
    fleet_ca_chain_pem = svc.fleet_ca_cert_pem;
    expires_at = expiry rcgen x509 svc inp.answered_at;
  }

  admit_new :
      (serial : String) (r : PreEnrollment) (c : Conn Tables) (cert : String)
      → IsIdle c
      → find claim_serial serial c.tables.pre_enrollment ≡ some r
      → r.claimed ≡ 0
      → contains id_of inp.id c.tables.devices ≡ false
      → contains serial_of serial c.tables.devices ≡ false
      → fleet_sign rcgen x509 svc inp.signed_at csr_pem ≡ ok cert
      → admit rcgen x509 svc inp serial csr_pem firmware c
        ≡ (ok (enrolled cert), record c { tables = enrolled_tables serial r.model cert c.tables })
  unfolding admit set_claimed ◌>>=◌
  admit_new serial r c cert idle found fresh free absent signed = ground (
    arith,
    signed,
    claim serial r c idle found fresh,
    create inp.id inp.stored_at (new_device serial r.model firmware cert)
        (record c { tables = (set_claimed serial c.tables).1 }) idle free absent,
  )

  authenticate_new :
      (serial : String) (chain : List x509.CertificateDer) (ca : String)
      → extract_serial x509 chain ≡ ok serial
      → verify_signed_by x509 chain ca ≡ ok tt
      → authenticate x509 serial chain ca ≡ ok serial
  unfolding authenticate
  authenticate_new serial chain ca own signed = ground (arith, own, signed, eq_refl serial)

  pub enroll_new :
      (serial : String) (r : PreEnrollment) (c : Conn Tables) (chain : List x509.CertificateDer)
      (ca cert : String)
      → IsIdle c
      → extract_serial x509 chain ≡ ok serial
      → verify_signed_by x509 chain ca ≡ ok tt
      → find claim_serial serial c.tables.pre_enrollment ≡ some r
      → r.claimed ≡ 0
      → contains id_of inp.id c.tables.devices ≡ false
      → contains serial_of serial c.tables.devices ≡ false
      → fleet_sign rcgen x509 svc inp.signed_at csr_pem ≡ ok cert
      → bootstrap_enroll rcgen x509 svc inp serial csr_pem firmware chain ca c
        ≡ (ok (enrolled cert), record c { tables = enrolled_tables serial r.model cert c.tables })
  unfolding bootstrap_enroll ◌>>=◌
  enroll_new serial r c chain ca cert idle own signed found fresh free absent sign = ground (
    arith,
    authenticate_new serial chain ca own signed,
    admit_new serial r c cert idle found fresh free absent sign,
  )
