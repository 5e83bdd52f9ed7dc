-- ===== src/Pki/Tls/Trust.antt =====
-- Whom a server trusts.
use robot_fleet.Prelude.{◌≡◌, String, List, [], ◌∷◌, ok, arith, ◌⊎◌, inl, inr, Result-cases}
use robot_fleet.Pki.Mtls.{X509, certs_from_pem}
use robot_fleet.Pki.Tls.{Rustls, add_all, root_store_from_pem, server_tls_config}

-- What a root store trusts: the empty one nothing, and one more certificate adds no other.
pub record IsTrust (x509 : X509) (rustls : Rustls x509)
    (Trusts : rustls.RootCertStore → x509.CertificateDer → Type 0) : Type 0 where
  pub nothing : (d : x509.CertificateDer) → Trusts rustls.empty d → ⊥
  pub added :
      (c d : x509.CertificateDer) (s more : rustls.RootCertStore)
      → rustls.add c s ≡ ok more
      → Trusts more d
      → (d ≡ c) ⊎ Trusts s d

module _ (x509 : X509) (rustls : Rustls x509)
    (Trusts : rustls.RootCertStore → x509.CertificateDer → Type 0)
    (trust : IsTrust x509 rustls Trusts) where
  abbrev pub In : x509.CertificateDer → List x509.CertificateDer → Type 0
  In d [] = ⊥
  In d (c ∷ cs) = (d ≡ c) ⊎ In d cs

  add_all-In :
      (certs : List x509.CertificateDer) (s more : rustls.RootCertStore) (d : x509.CertificateDer)
      → add_all x509 rustls certs s ≡ ok more
      → Trusts more d
      → In d certs ⊎ Trusts s d
  unfolding add_all
  add_all-In [] s more d h k = let same : s ≡ more = ground arith in inr (rw same k)
  add_all-In (c ∷ cs) s more d h k = elim (Result-cases (rustls.add c s)) [
    | inl (e, f) ↦ absurd (ground (arith, f))
    | inr (next, f) ↦ elim (add_all-In cs next more d (ground (arith, f)) k) [
      | inl later ↦ inl (inr later)
      | inr now ↦ elim (trust.added c d s next f now) [
        | inl same ↦ inl (inl same)
        | inr before ↦ inr before
      ]
    ]
  ]

  -- A root store that is made of a PEM file trusts no certificate but those of the file.
  pub root_store_from_pem-In :
      (text : String) (s : rustls.RootCertStore) (d : x509.CertificateDer)
      → root_store_from_pem x509 rustls text ≡ ok s
      → Trusts s d
      → (certs : List x509.CertificateDer) × (certs_from_pem x509 text ≡ ok certs) × In d certs
  unfolding root_store_from_pem
  root_store_from_pem-In text s d h k = elim (Result-cases (certs_from_pem x509 text)) [
    | inl (e, f) ↦ absurd (ground (arith, f))
    | inr (certs, f) ↦ elim (add_all-In certs rustls.empty s d (ground (arith, f)) k) [
      | inl found ↦ (certs, f, found)
      | inr none ↦ absurd (trust.nothing d none)
    ]
  ]

module _ (x509 : X509) (rustls : Rustls x509) where
  -- A server is only configured with a verifier of its clients, which is built from a store of the
  -- certificates in the CA's file.
  pub server_tls_config_verifies :
      (cert_pem key_pem client_ca_pem : String) (config : rustls.ServerConfig)
      → server_tls_config x509 rustls cert_pem key_pem client_ca_pem ≡ ok config
      → (ca_certs : List x509.CertificateDer) × (certs_from_pem x509 client_ca_pem ≡ ok ca_certs)
        × (roots : rustls.RootCertStore) × (add_all x509 rustls ca_certs rustls.empty ≡ ok roots)
        × (verifier : rustls.ClientCertVerifier) × (rustls.client_verifier roots ≡ ok verifier)
  unfolding server_tls_config root_store_from_pem
  server_tls_config_verifies cert_pem key_pem client_ca_pem config h =
      elim (Result-cases (certs_from_pem x509 client_ca_pem)) [
        | inl (e, f) ↦ absurd (ground (arith, f))
        | inr (ca_certs, f) ↦ elim (Result-cases (add_all x509 rustls ca_certs rustls.empty)) [
          | inl (e, g) ↦ absurd (ground (arith, f, g))
          | inr (roots, g) ↦ elim (Result-cases (rustls.client_verifier roots)) [
            | inl (e, k) ↦ absurd (ground (arith, f, g, k))
            | inr (verifier, k) ↦ (ca_certs, f, roots, g, verifier, k)
          ]
        ]
      ]
