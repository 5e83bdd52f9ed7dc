-- ===== src/Agent/Error.antt =====
-- robot-agent/src/error.rs, and the errors that the start of the program adds. A library's error stands
-- for its text.
use robot_fleet.Prelude.{String, [], ◌∷◌}
use robot_fleet.Prelude.Text.{format}
use robot_fleet.Pki.Error as Pki

pub data Error : Type 0 where
  tls grpc io install transport missing_env : String → Error
  checksum : String → String → Error
  pki : Pki.Error → Error

-- `to_string`
unfoldable pub display : Error → String
display (tls e) = format ("TLS error: " ∷ e ∷ [])
display (grpc e) = format ("gRPC error: " ∷ e ∷ [])
display (io e) = format ("IO error: " ∷ e ∷ [])
display (install e) = format ("install script failed: " ∷ e ∷ [])
display (transport e) = format ("gRPC transport error: " ∷ e ∷ [])
display (missing_env key) = format ("missing env var " ∷ key ∷ [])
display (checksum expected actual) =
    format ("checksum mismatch: expected " ∷ expected ∷ ", got " ∷ actual ∷ [])
display (pki e) = format ("PKI error: " ∷ Pki.display e ∷ [])
