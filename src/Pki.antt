-- ===== src/Pki.antt =====
-- pki/src: the certificates of the fleet. rcgen, rustls and x509_parser do the cryptography: they are
-- parameters of the model.
pub mod Error
pub mod Csr
pub mod Mtls
pub mod Tls
