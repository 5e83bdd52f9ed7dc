-- ===== src/Pki/Tls.antt =====
-- pki/src/mtls.rs, the TLS configurations. rustls is a parameter: its fallible functions return the text of
-- their error, and a builder that only allows TLS 1.3 stands for the builder's steps up to there.
pub mod Trust
use robot_fleet.Prelude.{String, Option, List, [], ◌∷◌, Result, ok, err, map_err}
use robot_fleet.Prelude.Outcome.{◌>>=◌, ok_or}
use robot_fleet.Pki.Error.{Error, tls, pem, cert_verification}
use robot_fleet.Pki.Mtls.{X509, certs_from_pem}

pub record Rustls (x509 : X509) : Type 1 where
  pub PrivateKeyDer : Type 0
  pub RootCertStore : Type 0
  pub ClientCertVerifier : Type 0
  pub ServerBuilder : Type 0
  pub ClientBuilder : Type 0
  pub ServerConfig : Type 0
  pub ClientConfig : Type 0
  -- rustls_pemfile::private_key
  pub private_key : String → Result String (Option PrivateKeyDer)
  pub empty : RootCertStore
  pub add : x509.CertificateDer → RootCertStore → Result String RootCertStore
  -- WebPkiClientVerifier
  pub client_verifier : RootCertStore → Result String ClientCertVerifier
  pub server_builder : Result String ServerBuilder
  pub client_builder : Result String ClientBuilder
  -- with_client_cert_verifier and with_single_cert
  pub server_config :
      ServerBuilder
      → ClientCertVerifier
      → List x509.CertificateDer
      → PrivateKeyDer
      → Result String ServerConfig
  -- with_root_certificates and with_client_auth_cert
  pub client_config :
      ClientBuilder
      → RootCertStore
      → List x509.CertificateDer
      → PrivateKeyDer
      → Result String ClientConfig

module _ (x509 : X509) (rustls : Rustls x509) where
  unfoldable pub private_key_from_pem : String → Result Error rustls.PrivateKeyDer
  private_key_from_pem text = do
    found ← map_err pem (rustls.private_key text)
    ok_or (pem "no private key found in PEM") found

  unfoldable pub add_all :
      List x509.CertificateDer → rustls.RootCertStore → Result Error rustls.RootCertStore
  add_all [] store = ok store
  add_all (cert ∷ certs) store =
      map_err cert_verification (rustls.add cert store) >>= λ more. add_all certs more

  unfoldable pub root_store_from_pem : String → Result Error rustls.RootCertStore
  unfolding add_all
  root_store_from_pem text = do certs ← certs_from_pem x509 text; add_all certs rustls.empty

  unfoldable pub server_tls_config : String → String → String → Result Error rustls.ServerConfig
  unfolding private_key_from_pem root_store_from_pem
  server_tls_config cert_pem key_pem client_ca_pem = do
    certs ← certs_from_pem x509 cert_pem
    key ← private_key_from_pem key_pem
    roots ← root_store_from_pem client_ca_pem
    verifier ← map_err cert_verification (rustls.client_verifier roots)
    builder ← map_err tls rustls.server_builder
    map_err tls (rustls.server_config builder verifier certs key)

  unfoldable pub client_tls_config : String → String → String → Result Error rustls.ClientConfig
  unfolding private_key_from_pem root_store_from_pem
  client_tls_config cert_pem key_pem server_ca_pem = do
    certs ← certs_from_pem x509 cert_pem
    key ← private_key_from_pem key_pem
    roots ← root_store_from_pem server_ca_pem
    builder ← map_err tls rustls.client_builder
    map_err tls (rustls.client_config builder roots certs key)
