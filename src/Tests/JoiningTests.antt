-- ===== src/Tests/JoiningTests.antt =====
-- A robot that joins a service that was just started, at concrete inputs. A certificate of the toy CA is the
-- subject of the request after a letter for the key that signed it.
use Prim.Native.String.{String}
use robot_fleet.Prelude.{
  ◌≡◌, refl, arith, Option, none, some, List, [], ◌∷◌, Result, ok, err, if◌then◌else◌, ◌==◌,
}
use robot_fleet.Prelude.Split.{parse_u64, from_decimal}
use robot_fleet.Pki.Csr.{Rcgen, sign_csr}
use robot_fleet.Pki.Mtls.{X509, extract_serial, verify_signed_by}
use robot_fleet.Service.{Host}
use robot_fleet.Sql.{Conn}
use robot_fleet.Sql.Table.{find, contains}
use robot_fleet.Device.Store.{Tables, id_of, new_entry, new_record}
use robot_fleet.Device.Provisioning.{ProvisionDeviceRequest, provision_device}
use robot_fleet.Device.Enrollment.{new_device}
use robot_fleet.Device.Server.{
  DeviceManagementServer, new_server, bootstrap_enroll, stream_heartbeat,
}
use robot_fleet.Device.Heartbeat.Liveness.{pings, calm_for, seen_by}
use robot_fleet.Device.Startup.{start_store}
use robot_fleet.Device.Startup.Ports.{Listeners, start, settings, listeners}
use robot_fleet.Device.Joining.{IsNew, enrolled}
use robot_fleet.Device.Joining.Started.{IsCa, robot_joins}
use robot_fleet.Tests.Fixtures.{registry, inputs}
use robot_fleet.Tests.StartupTests.{lines, lines-AreLines}

abbrev mark : String → String → String
mark key s = if key == "device key" then String.◌∷◌ "d" s else String.◌∷◌ "f" s

abbrev rcgen : Rcgen
rcgen = record {
  KeyPair = String;
  CaParams = String;
  CsrParams = String;
  Certificate = String;
  key_from_pem = λ s. ok s;
  from_ca_cert_pem = λ s. ok s;
  self_signed = λ p k. ok p;
  csr_from_pem = λ s. ok s;
  with_validity = λ from to p. p;
  signed_by = λ p ca k. ok (mark k p);
  pem_of = λ c. c;
}

abbrev read_certs : String → Result String (List (String × String))
read_certs String.[] = err "empty"
read_certs (String.◌∷◌ c s) =
    ok ((s, if String.◌∷◌ c "" == "d" then "device ca" else "fleet ca") ∷ [])

abbrev x509 : X509
x509 = record {
  CertificateDer = String × String;
  X509Certificate = String × String;
  PublicKey = String;
  certs = read_certs;
  from_der = λ c. ok c;
  common_names = λ c. ok c.0 ∷ [];
  public_key = λ c. c.0;
  verify_signature = λ c k. if c.1 == k then ok tt else err "bad signature";
}

toy-IsCa : IsCa rcgen x509 (λ csr_pem. ok csr_pem) "rdevice ca" "device key"
unfolding sign_csr verify_signed_by extract_serial
toy-IsCa = record {
  issued = λ now validity_days csr_pem cert_pem chain signed read. (ground arith, ground arith);
}

-- the files hold what their variables are called, in short
abbrev variables : List (String × String)
variables =
    ("SERVER_CERT_PEM", "server cert")
    ∷ ("SERVER_KEY_PEM", "server key")
    ∷ ("FLEET_CA_CERT_PEM", "rfleet ca")
    ∷ ("FLEET_CA_KEY_PEM", "fleet key")
    ∷ ("DEVICE_CA_CERT_PEM", "rdevice ca")
    ∷ ("DEVICE_CA_KEY_PEM", "device key")
    ∷ ("FACTORY_MANIFEST", "SN-5:tok,SN-6:tok:Beta:2")
    ∷ []

abbrev value_in : List (String × String) → String → Option String
value_in [] key = none
value_in ((k, v) ∷ more) key = let rest = value_in more key in if k == key then some v else rest

abbrev host : Host
host = record {
  Bytes = String;
  SocketAddr = String;
  var = value_in variables;
  read = λ path. ok path;
  from_utf8 = λ bytes. some bytes;
  as_bytes = λ s. s;
  parse = λ s. some s;
  tls_config = λ tls. ok tt;
}

abbrev server : DeviceManagementServer
server = new_server "rfleet ca" "fleet key" "rdevice ca" 30

abbrev ports : Listeners host
ports = record {
  fleet = record {
    address = "[::]:8443";
    tls = record { identity = ("server cert", "server key"); client_ca_root = some "rfleet ca" };
    service = server;
  };
  bootstrap = record {
    address = "[::]:8444";
    tls = record { identity = ("server cert", "server key"); client_ca_root = some "rdevice ca" };
    service = server;
  };
  provisioning = record {
    address = "[::]:8445";
    tls = record { identity = ("server cert", "server key"); client_ca_root = none };
    service = record { device_ca_cert_pem = "rdevice ca"; device_ca_key_pem = "device key" };
  };
}

abbrev started : Conn Tables
started = (start_store (some "SN-5:tok,SN-6:tok:Beta:2") registry).1

abbrev req : ProvisionDeviceRequest
req = record { serial = "SN-6"; csr_pem = "SN-6"; provision_token = "tok" }

new : IsNew "SN-6" "d2" registry.tables
unfolding contains
new = record { id_free = refl; serial_free = refl; unopened = refl }

host_starts : start host (λ path. ok registry) ≡ ok (ok ports, started)
unfolding start settings listeners parse_u64 from_decimal
host_starts = refl

robot_joins_example :
    let p = provision_device rcgen ports.provisioning.service 100 99 req started in
    let q =
      bootstrap_enroll rcgen x509 server.enrollment "rdevice ca" inputs
        (some (("SN-6", "device ca") ∷ []))
        (record { serial = "SN-6"; csr_pem = "robot"; firmware = "1.0" })
        p.1 in
    let out =
      stream_heartbeat (λ e. "status") (pings ((200, record { device_id = "d2" }) ∷ [])) 4 q.1 in
    (p.0 ≡ ok "dSN-6")
    × (q.0 ≡ ok (enrolled rcgen x509 server.enrollment inputs "robot" "1.0" "frobot"))
    × (out.0 ≡ calm_for ((200, record { device_id = "d2" }) ∷ []))
    × (find id_of "d2" out.1.tables.devices
        ≡ seen_by
            ((200, record { device_id = "d2" }) ∷ [])
            (some (new_record "d2" 102 (new_device "SN-6" "Beta:2" "1.0" "frobot"))))
unfolding sign_csr find
robot_joins_example =
    robot_joins host (λ path. ok registry) rcgen x509 (λ csr_pem. ok csr_pem) ports registry started
      lines (new_entry "SN-6" "Beta:2" "tok") 100 99 req inputs "robot" "1.0" "dSN-6" "frobot"
      (("SN-6", "device ca") ∷ []) (λ e. "status") 200 (record { device_id = "d2" }) [] 4
      host_starts refl refl lines-AreLines (refl, refl) new refl refl refl refl toy-IsCa refl refl
      refl refl refl (omega arith)
