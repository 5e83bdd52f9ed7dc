-- ===== src/Tests/Fixtures.antt =====
-- A registry, a CA and callers to try the theorems on.
use robot_fleet.Prelude.{true, ℕ, String, Option, none, some, [], ◌∷◌, ok, err, if◌then◌else◌, ◌==◌}
use robot_fleet.Prelude.Text.{format}
use robot_fleet.Pki.Csr.{Rcgen}
use robot_fleet.Pki.Mtls.{X509}
use robot_fleet.Sql.{Conn}
use robot_fleet.Device.Store.{NewDevice, DeviceRecord, PreEnrollment, ManifestEntry, Tables}
use robot_fleet.Device.Enrollment.{EnrollmentService, Inputs}

abbrev pub toy_rcgen : Rcgen
toy_rcgen = record {
  KeyPair = String;
  CaParams = String;
  CsrParams = String;
  Certificate = String;
  key_from_pem = λ s. if s == "" then err "no key" else ok s;
  from_ca_cert_pem = λ s. ok s;
  self_signed = λ p k. ok p;
  csr_from_pem = λ s. if s == "broken" then err "no request" else ok s;
  with_validity = λ from to p. p;
  signed_by = λ p ca k. ok (format (p ∷ " signed by " ∷ k ∷ []));
  pem_of = λ c. c;
}

-- a certificate is its common name and the name of its issuer
abbrev pub toy_x509 : X509
toy_x509 = record {
  CertificateDer = String × String;
  X509Certificate = String × String;
  PublicKey = String;
  certs = λ s. ok ((s, s) ∷ []);
  from_der = λ c. ok c;
  common_names = λ c. ok c.0 ∷ [];
  public_key = λ c. c.0;
  verify_signature = λ c k. if c.1 == k then ok tt else err "bad signature";
}

abbrev pub service : EnrollmentService
service = record {
  fleet_ca_cert_pem = "fleet ca";
  fleet_ca_key_pem = "fleet key";
  cert_validity_days = 30;
}

abbrev pub inputs : Inputs
inputs = record { id = "d2"; signed_at = 100; answered_at = 101; stored_at = 102 }

abbrev pub device : String → String → String → DeviceRecord
device id serial status = record {
  id = id;
  serial = serial;
  model = "humanoid-v2";
  firmware = "1.0.0";
  status = status;
  operational_cert_pem = "cert";
  enrolled_at = 10;
  last_seen_at = 11;
}

abbrev pub entry : String → Option ℕ → ManifestEntry
entry serial at = record {
  serial = serial;
  model = "humanoid-v2";
  token = "token";
  provisioned_at = at;
}

abbrev pub pre : String → ℕ → PreEnrollment
pre serial claimed = record { serial = serial; model = "humanoid-v2"; claimed = claimed }

abbrev pub tables : Tables
tables = record {
  factory_manifest = entry "SN-1" none ∷ entry "SN-9" (some 5) ∷ [];
  devices = device "d9" "SN-9" "active" ∷ device "d1" "SN-8" "suspended" ∷ [];
  pre_enrollment = pre "SN-1" 0 ∷ pre "SN-9" 1 ∷ [];
}

abbrev pub registry : Conn Tables
registry = record { tables = tables; saved = none; faults = [] }

-- the third statement meets a full disk
abbrev pub faulty : Conn Tables
faulty = record {
  tables = tables;
  saved = none;
  faults =
      none ∷ none ∷ some (record { text = "disk full"; rolls_back = true; at_row = none }) ∷ [];
}

abbrev pub newcomer : NewDevice
newcomer = record {
  serial = "SN-7";
  model = "humanoid-v2";
  firmware = "2.0.0";
  operational_cert_pem = "cert";
}
