-- ===== src/Artifact/Server.antt =====
-- artifact-store/src/server/mod.rs: the gRPC service. `id` and `now` are the UUID and the clock's
-- reading of one call; `presign_upload` is that of the object store. A response's metadata is always
-- empty and left out.
pub mod Publication
use robot_fleet.Prelude.{
  ℕ, zero, suc, String, List, [], ◌∷◌, map, Result, ok, err, map_err, Method, pure, fail, lift,
  with_error, ◌>>=◌, ◌>>◌, if◌then◌else◌, ◌==◌,
}
use robot_fleet.Prelude.Int.{ℤ, pos, negsuc, to_i64, to_u64}
use robot_fleet.Prelude.Text.{format}
use robot_fleet.Grpc as Grpc
use robot_fleet.Grpc.{Status, status, invalid_argument, already_exists, internal}
use robot_fleet.Sql.{Conn}
use robot_fleet.Artifact.Error.{Error, not_found, version_conflict, display}
use robot_fleet.Artifact.Registry as Registry
use robot_fleet.Artifact.Registry.{NewArtifact, ArtifactRecord, Artifacts, create, get, list}

pub record ArtifactMeta : Type 0 where
  pub artifact_id : String
  pub model : String
  pub version : String
  pub download_url : String
  pub sha256 : String
  pub size_bytes : ℕ
  pub channel : String
  pub created_at : ℕ

abbrev pub record_to_proto : ArtifactRecord → ArtifactMeta
record_to_proto r = record {
  artifact_id = r.id;
  model = r.model;
  version = r.version;
  download_url = r.download_url;
  sha256 = r.sha256;
  size_bytes = to_u64 r.size_bytes;
  channel = r.channel;
  created_at = r.created_at;
}

abbrev pub server_status : Error → Status
server_status (not_found m) = status Grpc.not_found m
server_status (version_conflict model version) =
    status already_exists (display (version_conflict model version))
server_status e = status internal (display e)

pub record PublishRequest : Type 0 where
  pub model : String
  pub version : String
  pub sha256 : String
  pub size_bytes : ℕ
  pub channel : String
  pub object_key : String

abbrev pub new_artifact : PublishRequest → NewArtifact
new_artifact req = record {
  model = req.model;
  version = req.version;
  sha256 = req.sha256;
  size_bytes = to_i64 req.size_bytes;
  channel = req.channel;
  object_key = req.object_key;
  download_url = "";
}

abbrev pub page_limit : ℤ → ℕ
page_limit (pos zero) = 50
page_limit (pos (suc n)) = suc n
page_limit (negsuc n) = 50

unfoldable pub publish_artifact :
    String → ℕ → PublishRequest → Method (Conn Artifacts) Status ArtifactMeta
unfolding ◌>>=◌
publish_artifact id now req = do
  if req.sha256 == "" then fail (status invalid_argument "sha256 cannot be empty") else pure tt
  r ← with_error server_status (create id now (new_artifact req))
  pure (record_to_proto r)

unfoldable pub get_artifact : String → Method (Conn Artifacts) Status ArtifactMeta
unfolding ◌>>=◌
get_artifact id = do r ← with_error server_status (get id); pure (record_to_proto r)

unfoldable pub list_artifacts :
    String → String → ℤ → Method (Conn Artifacts) Status (List ArtifactMeta)
unfolding ◌>>=◌
list_artifacts model channel limit = do
  records ← with_error server_status (list model channel (page_limit limit))
  pure (map record_to_proto records)

unfoldable pub get_latest : String → String → Method (Conn Artifacts) Status ArtifactMeta
unfolding ◌>>=◌
get_latest model channel = do
  r ← with_error server_status (Registry.get_latest model channel)
  pure (record_to_proto r)

abbrev pub object_key : String → String → String
object_key model version = format (model ∷ "/" ∷ version ∷ "/firmware.bin" ∷ [])

-- The response is the URL and the key.
module _ (presign_upload : String → ℕ → Result Error String) where
  unfoldable pub generate_upload_url :
      String → String → Method (Conn Artifacts) Status (String × String)
  unfolding ◌>>=◌
  generate_upload_url model version = do
    upload_url ← lift (map_err server_status (presign_upload (object_key model version) 3600))
    pure (upload_url, object_key model version)
