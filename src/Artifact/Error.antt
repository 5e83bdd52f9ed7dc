-- ===== src/Artifact/Error.antt =====
-- artifact-store/src/error.rs, the errors that the service's own code returns.
use robot_fleet.Prelude.{String, [], ◌∷◌}
use robot_fleet.Prelude.Text.{format}
use robot_fleet.Sql.{SqlError, sql_text}

pub data Error : Type 0 where
  not_found : String → Error
  version_conflict : String → String → Error
  db : SqlError → Error
  storage : String → Error

-- `to_string`
unfoldable pub display : Error → String
display (not_found text) = format ("not found: " ∷ text ∷ [])
display (version_conflict model version) =
    format ("version already exists: " ∷ model ∷ "@" ∷ version ∷ [])
display (db e) = format ("database error: " ∷ sql_text e ∷ [])
display (storage e) = format ("storage error: " ∷ e ∷ [])
