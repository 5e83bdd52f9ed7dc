-- ===== src/Device/Error.antt =====
-- device-management-service/src/error.rs
use robot_fleet.Prelude.{String, [], ◌∷◌}
use robot_fleet.Prelude.Text.{format}
use robot_fleet.Pki.Error as Pki
use robot_fleet.Sql.{SqlError, sql_text}

pub data Error : Type 0 where
  not_found already_enrolled not_pre_enrolled serial_already_claimed : String → Error
  device_not_active : String → Error
  serial_mismatch : String → String → Error
  cert_verification not_in_manifest invalid_provision_token already_provisioned : String → Error
  db : SqlError → Error
  pki : Pki.Error → Error

-- `to_string`
unfoldable pub display : Error → String
display (not_found id) = format ("device not found: " ∷ id ∷ [])
display (already_enrolled serial) = format ("serial already enrolled: " ∷ serial ∷ [])
display (not_pre_enrolled serial) = format ("serial not in pre-enrollment registry: " ∷ serial ∷ [])
display (serial_already_claimed serial) = format ("serial already claimed: " ∷ serial ∷ [])
display (device_not_active status) = format ("device is " ∷ status ∷ ", cannot renew cert" ∷ [])
display (serial_mismatch cert request) =
    format ("serial mismatch: cert=" ∷ cert ∷ " request=" ∷ request ∷ [])
display (cert_verification e) = format ("cert verification failed: " ∷ e ∷ [])
display (not_in_manifest serial) = format ("serial not in factory manifest: " ∷ serial ∷ [])
display (invalid_provision_token serial) =
    format ("invalid provision token for serial: " ∷ serial ∷ [])
display (already_provisioned serial) = format ("device already provisioned: " ∷ serial ∷ [])
display (db e) = format ("database error: " ∷ sql_text e ∷ [])
display (pki e) = format ("PKI error: " ∷ Pki.display e ∷ [])
