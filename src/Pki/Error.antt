-- ===== src/Pki/Error.antt =====
-- pki/src/error.rs
use robot_fleet.Prelude.{String, [], ◌∷◌}
use robot_fleet.Prelude.Text.{format}

-- A rustls error and an I/O error stand for the text that they print.
pub data Error : Type 0 where
  tls pem cert_verification io : String → Error
  no_peer_cert : Error
  serial_mismatch : String → String → Error

-- `to_string`
unfoldable pub display : Error → String
display (tls e) = format ("TLS error: " ∷ e ∷ [])
display (pem e) = format ("PEM parse error: " ∷ e ∷ [])
display (cert_verification e) = format ("device cert verification failed: " ∷ e ∷ [])
display (io e) = format ("IO error: " ∷ e ∷ [])
display no_peer_cert = "no peer certificate in TLS state"
display (serial_mismatch cert request) =
    format ("serial mismatch: cert=" ∷ cert ∷ " request=" ∷ request ∷ [])
