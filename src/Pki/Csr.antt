-- ===== src/Pki/Csr.antt =====
-- pki/src/csr.rs. rcgen is a parameter: its fallible functions return the text of their error.
use robot_fleet.Prelude.{ℕ, ◌+◌, ◌*◌, ◌≡◌, String, Result, ok, map_err, arith}
use robot_fleet.Prelude.Outcome.{◌>>=◌}
use robot_fleet.Pki.Error.{Error, pem}

pub record Rcgen : Type 1 where
  pub KeyPair : Type 0
  pub CaParams : Type 0
  pub CsrParams : Type 0
  pub Certificate : Type 0
  -- KeyPair::from_pem
  pub key_from_pem : String → Result String KeyPair
  -- CertificateParams::from_ca_cert_pem, self_signed
  pub from_ca_cert_pem : String → Result String CaParams
  pub self_signed : CaParams → KeyPair → Result String Certificate
  -- CertificateSigningRequestParams::from_pem, signed_by; not_before and not_after are set between
  pub csr_from_pem : String → Result String CsrParams
  pub with_validity : ℕ → ℕ → CsrParams → CsrParams
  pub signed_by : CsrParams → Certificate → KeyPair → Result String Certificate
  pub pem_of : Certificate → String

abbrev pub seconds_per_day : ℕ
seconds_per_day = 86400

module _ (rcgen : Rcgen) where
  open rcgen use {
    key_from_pem, from_ca_cert_pem, self_signed, csr_from_pem, with_validity, signed_by, pem_of,
  }

  -- `now` is the clock's reading.
  unfoldable pub sign_csr : ℕ → String → String → String → ℕ → Result Error String
  sign_csr now csr_pem ca_cert_pem ca_key_pem validity_days = do
    ca_key ← map_err pem (key_from_pem ca_key_pem)
    ca_params ← map_err pem (from_ca_cert_pem ca_cert_pem)
    ca_cert ← map_err pem (self_signed ca_params ca_key)
    csr_params ← map_err pem (csr_from_pem csr_pem)
    cert ← map_err pem (
        signed_by (with_validity now (now + validity_days * seconds_per_day) csr_params) ca_cert
          ca_key)
    ok (pem_of cert)

  -- A certificate is issued only by the key pair and the certificate of the CA that were given, for the
  -- request that was given, and is valid from now for the number of days that was given.
  pub sign_csr_lem :
      (now : ℕ) (csr_pem ca_cert_pem ca_key_pem : String) (validity_days : ℕ) (cert_pem : String)
      → sign_csr now csr_pem ca_cert_pem ca_key_pem validity_days ≡ ok cert_pem
      → (key : rcgen.KeyPair) × (params : rcgen.CaParams) × (ca : rcgen.Certificate)
        × (csr : rcgen.CsrParams) × (cert : rcgen.Certificate) × (key_from_pem ca_key_pem ≡ ok key)
        × (from_ca_cert_pem ca_cert_pem ≡ ok params)
        × (self_signed params key ≡ ok ca)
        × (csr_from_pem csr_pem ≡ ok csr)
        × (signed_by (with_validity now (now + validity_days * seconds_per_day) csr) ca key
            ≡ ok cert)
        × (cert_pem ≡ pem_of cert)
  unfolding sign_csr
  sign_csr_lem now csr_pem ca_cert_pem ca_key_pem validity_days cert_pem h = ground arith
