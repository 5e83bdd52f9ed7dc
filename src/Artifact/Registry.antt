-- ===== src/Artifact/Registry.antt =====
-- artifact-store/src/registry/mod.rs: the registry of artifacts in SQLite. `id` and `now` are what
-- `Uuid::new_v4` and the clock return. A poisoned mutex is not modelled. Times are Unix seconds after
-- 1970, and a limit is what the server passes, a number above 0.
pub mod Newest
pub mod Versions
use robot_fleet.Prelude.{
  ℕ, String, Bool, true, false, Option, none, some, List, [], ◌∷◌, ◌++◌, ◌&&◌, ◌==◌, Result, ok,
  err, Method, map_err, with_error, ◌>>=◌, ◌>>◌, pure, if◌then◌else◌, ltb, take, select,
}
use robot_fleet.Prelude.Int.{ℤ}
use robot_fleet.Prelude.Text.{format}
use robot_fleet.Prelude.Outcome.{first}
use robot_fleet.Sql.{
  SqlError, constraint_violation, query_returned_no_rows, failure, Conn, autocommit,
}
use robot_fleet.Sql.Table.{find, contains}
use robot_fleet.Sql.Order.{order_rows}
use robot_fleet.Artifact.Error.{Error, not_found, version_conflict, db}

pub record NewArtifact : Type 0 where
  pub model : String
  pub version : String
  pub sha256 : String
  pub size_bytes : ℤ
  pub channel : String
  pub object_key : String
  pub download_url : String

-- also a row of the table `artifacts`
pub record ArtifactRecord : Type 0 where
  pub id : String
  pub model : String
  pub version : String
  pub sha256 : String
  pub size_bytes : ℤ
  pub channel : String
  pub object_key : String
  pub download_url : String
  pub created_at : ℕ

abbrev pub Artifacts : Type 0
Artifacts = List ArtifactRecord

abbrev pub Registry : Type 0 → Type 0
Registry A = Method (Conn Artifacts) Error A

abbrev pub id_of : ArtifactRecord → String
id_of r = r.id

-- UNIQUE(model, version)
unfoldable pub has_version : String → String → Artifacts → Bool
has_version model version [] = false
has_version model version (r ∷ rs) =
    if (r.model == model) && (r.version == version) then true else has_version model version rs

unfoldable pub insert_artifact : ArtifactRecord → Method Artifacts SqlError (Unit {0})
insert_artifact r rows =
    if contains id_of r.id rows
    then (err (constraint_violation "artifacts.id"), rows)
    else if has_version r.model r.version rows
    then (err (constraint_violation "artifacts.model, artifacts.version"), rows)
    else (ok tt, rows ++ r ∷ [])

abbrev pub new_record : String → ℕ → NewArtifact → ArtifactRecord
new_record id now a = record {
  id = id;
  model = a.model;
  version = a.version;
  sha256 = a.sha256;
  size_bytes = a.size_bytes;
  channel = a.channel;
  object_key = a.object_key;
  download_url = a.download_url;
  created_at = now;
}

abbrev pub or_conflict : NewArtifact → SqlError → Error
or_conflict a (constraint_violation column) = version_conflict a.model a.version
or_conflict a query_returned_no_rows = db query_returned_no_rows
or_conflict a (failure text) = db (failure text)

unfoldable pub create : String → ℕ → NewArtifact → Registry ArtifactRecord
unfolding insert_artifact autocommit ◌>>=◌
create id now a = do
  with_error (or_conflict a) (autocommit (insert_artifact (new_record id now a)))
  pure (new_record id now a)

abbrev row : Option ArtifactRecord → Result SqlError ArtifactRecord
row none = err query_returned_no_rows
row (some r) = ok r

-- the `map_err` behind a query that found no row
abbrev pub or_missing : String → SqlError → Error
or_missing text query_returned_no_rows = not_found text
or_missing text (constraint_violation column) = db (constraint_violation column)
or_missing text (failure e) = db (failure e)

unfoldable pub get : String → Registry ArtifactRecord
unfolding autocommit with_error
get id = with_error (or_missing id) (autocommit λ rows. (row (find id_of id rows), rows))

-- the WHERE clause of the listings, and ORDER BY created_at DESC
abbrev pub is_listed : String → String → ArtifactRecord → Bool
is_listed model channel r = (r.model == model) && (r.channel == channel)

abbrev pub is_newer : ArtifactRecord → ArtifactRecord → Bool
is_newer r q = ltb q.created_at r.created_at

unfoldable pub newest_first : String → String → Artifacts → List ArtifactRecord
newest_first model channel rows = order_rows is_newer (select (is_listed model channel) rows)

abbrev pub latest_name : String → String → String
latest_name model channel = format (model ∷ "@latest (" ∷ channel ∷ ")" ∷ [])

unfoldable pub get_latest : String → String → Registry ArtifactRecord
unfolding autocommit with_error
get_latest model channel =
    with_error (or_missing (latest_name model channel))
      (autocommit λ rows. (row (first (newest_first model channel rows)), rows))

unfoldable pub list : String → String → ℕ → Registry (List ArtifactRecord)
unfolding autocommit with_error
list model channel limit =
    with_error db (autocommit λ rows. (ok (take limit (newest_first model channel rows)), rows))
