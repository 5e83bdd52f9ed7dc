-- ===== src/Ota/Error.antt =====
-- ota-service/src/error.rs, the errors that the service's own code returns.
use robot_fleet.Prelude.{String}
use robot_fleet.Sql.{SqlError}

pub data Error : Type 0 where
  not_found : String → Error
  already_pending : Error
  no_active_subscribers : String → Error
  db : SqlError → Error
