-- ===== src/Pki/Mtls.antt =====
-- pki/src/mtls.rs, the checks of a client's certificate. x509_parser and rustls_pemfile are parameters:
-- their fallible functions return the text of their error.
use robot_fleet.Prelude.{◌≡◌, String, some, List, Result, ok, map_err, arith}
use robot_fleet.Prelude.Outcome.{◌>>=◌, ok_or, first}
use robot_fleet.Pki.Error.{Error, pem, cert_verification, no_peer_cert}

pub record X509 : Type 1 where
  -- CertificateDer, X509Certificate, SubjectPublicKeyInfo
  pub CertificateDer : Type 0
  pub X509Certificate : Type 0
  pub PublicKey : Type 0
  -- rustls_pemfile::certs
  pub certs : String → Result String (List CertificateDer)
  pub from_der : CertificateDer → Result String X509Certificate
  -- subject().iter_common_name(), each as_str
  pub common_names : X509Certificate → List (Result String String)
  pub public_key : X509Certificate → PublicKey
  pub verify_signature : X509Certificate → PublicKey → Result String (Unit {0})

module _ (x509 : X509) where
  open x509 use {
    CertificateDer, X509Certificate, certs, from_der, common_names, public_key, verify_signature,
  }

  unfoldable pub certs_from_pem : String → Result Error (List CertificateDer)
  certs_from_pem text = map_err pem (certs text)

  unfoldable pub extract_serial : List CertificateDer → Result Error String
  extract_serial peer_certs = do
    cert ← ok_or no_peer_cert (first peer_certs)
    x ← map_err pem (from_der cert)
    cn ← ok_or (pem "no CN in subject") (first (common_names x))
    map_err pem cn

  unfoldable pub verify_signed_by : List CertificateDer → String → Result Error (Unit {0})
  unfolding certs_from_pem
  verify_signed_by peer_certs ca_pem = do
    leaf ← ok_or no_peer_cert (first peer_certs)
    ca_certs ← certs_from_pem ca_pem
    ca_der ← ok_or (pem "no certificate in CA PEM") (first ca_certs)
    ca_x509 ← map_err cert_verification (from_der ca_der)
    leaf_x509 ← map_err cert_verification (from_der leaf)
    map_err cert_verification (verify_signature leaf_x509 (public_key ca_x509))

  -- A chain that passes both checks starts with a certificate whose signature is that of the first
  -- certificate of the CA's PEM file, and the serial is that very certificate's first common name.
  pub authenticated_serial :
      (peer_certs : List CertificateDer) (ca_pem serial : String)
      → extract_serial peer_certs ≡ ok serial
      → verify_signed_by peer_certs ca_pem ≡ ok tt
      → (leaf : CertificateDer) × (first peer_certs ≡ some leaf)
        × (x : X509Certificate) × (from_der leaf ≡ ok x)
        × (first (common_names x) ≡ some (ok serial))
        × (ca_certs : List CertificateDer) × (certs ca_pem ≡ ok ca_certs)
        × (ca_der : CertificateDer) × (first ca_certs ≡ some ca_der)
        × (ca : X509Certificate) × (from_der ca_der ≡ ok ca)
        × (verify_signature x (public_key ca) ≡ ok tt)
  unfolding extract_serial verify_signed_by
  authenticated_serial peer_certs ca_pem serial h k = ground arith
