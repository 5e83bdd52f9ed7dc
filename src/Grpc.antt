-- ===== src/Grpc.antt =====
-- tonic's `Status`, the error of a remote call, and its codes, as far as the sources name them.
use robot_fleet.Prelude.{String}

pub data Code : Type 0 where
  invalid_argument not_found already_exists permission_denied failed_precondition : Code
  unavailable unauthenticated internal : Code

pub record Status : Type 0 where
  pub code : Code
  pub message : String

abbrev pub status : Code → String → Status
status code message = record { code = code; message = message }
