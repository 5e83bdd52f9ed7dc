-- ===== src/Artifact/Server/Publication.antt =====
-- What is published, what is shown of it, and what holds of the registry however the service is used.
use robot_fleet.Prelude.{
  ℕ, ◌^◌, ◌<◌, ◌≡◌, ap, String, false, List, [], ◌∷◌, ◌++◌, arith, Result, ok, err, eq_refl,
  if◌then◌else◌, ◌==◌, ◌⊎◌, inl, inr,
}
use robot_fleet.Prelude.Int.{ℤ, to_u64-to_i64}
use robot_fleet.Grpc.{status, invalid_argument, already_exists}
use robot_fleet.Sql.{Conn}
use robot_fleet.Sql.Table.{contains}
use robot_fleet.Artifact.Error.{Error, version_conflict, display}
use robot_fleet.Artifact.Registry.{Artifacts, id_of, has_version, new_record, create, get, list}
use robot_fleet.Artifact.Registry as Registry
use robot_fleet.Artifact.Registry.Versions.{IsValid, create_result, get-create, create-IsValid}
use robot_fleet.Artifact.Server.{
  ArtifactMeta, PublishRequest, new_artifact, record_to_proto, publish_artifact, get_artifact,
  list_artifacts, get_latest, generate_upload_url,
}

-- what is shown of a publication
abbrev pub meta : String → ℕ → PublishRequest → ArtifactMeta
meta id now req = record {
  artifact_id = id;
  model = req.model;
  version = req.version;
  download_url = "";
  sha256 = req.sha256;
  size_bytes = req.size_bytes;
  channel = req.channel;
  created_at = now;
}

meta-new_artifact :
    (id : String) (now : ℕ) (req : PublishRequest)
    → req.size_bytes < 2 ^ 64
    → record_to_proto (new_record id now (new_artifact req)) ≡ meta id now req
meta-new_artifact id now req h =
    ap (λ n. record (meta id now req) { size_bytes = n }) (to_u64-to_i64 req.size_bytes h)

abbrev pub stored : String → ℕ → PublishRequest → Conn Artifacts → Conn Artifacts
stored id now req c = record c { tables = c.tables ++ new_record id now (new_artifact req) ∷ [] }

-- A publication is refused without a checksum, and as a conflict if its version is taken, and in both
-- cases nothing changes. Else it is answered with what was published, its size included however large a
-- 64-bit number it is. The id is new and nothing fails.
pub publish_artifact_result :
    (id : String) (now : ℕ) (req : PublishRequest) (c : Conn Artifacts)
    → c.faults ≡ []
    → contains id_of id c.tables ≡ false
    → req.size_bytes < 2 ^ 64
    → publish_artifact id now req c ≡ (
        if req.sha256 == ""
        then (err (status invalid_argument "sha256 cannot be empty"), c)
        else if has_version req.model req.version c.tables
        then (err (status already_exists (display (version_conflict req.model req.version))), c)
        else (ok (meta id now req), stored id now req c))
unfolding publish_artifact
publish_artifact_result id now req c works fresh h =
    ground (arith, create_result id now (new_artifact req) c works, meta-new_artifact id now req h)

-- What a publication was answered is what its id shows right after it, if nothing fails.
pub get_artifact-publish_artifact :
    (id : String) (now : ℕ) (req : PublishRequest) (c : Conn Artifacts) (shown : ArtifactMeta)
    → c.faults ≡ []
    → (publish_artifact id now req c).0 ≡ ok shown
    → (get_artifact id (publish_artifact id now req c).1).0 ≡ ok shown
unfolding publish_artifact get_artifact
get_artifact-publish_artifact id now req c shown works h = ground (
  arith,
  eq_refl id,
  get-create id id now (new_artifact req) c (new_record id now (new_artifact req)) works,
  create_result id now (new_artifact req) c works,
)

pub data Rpc : Type 0 where
  publishes : String → ℕ → PublishRequest → Rpc
  gets : String → Rpc
  lists : String → String → ℤ → Rpc
  gets_latest generates_upload_url : String → String → Rpc

module _ (presign_upload : String → ℕ → Result Error String) where
  unfoldable pub perform : Rpc → Conn Artifacts → Conn Artifacts
  perform (publishes id now req) c = (publish_artifact id now req c).1
  perform (gets id) c = (get_artifact id c).1
  perform (lists model channel limit) c = (list_artifacts model channel limit c).1
  perform (gets_latest model channel) c = (get_latest model channel c).1
  perform (generates_upload_url model version) c =
      (generate_upload_url presign_upload model version c).1

  unfoldable pub run : List Rpc → Conn Artifacts → Conn Artifacts
  run [] c = c
  run (rpc ∷ rpcs) c = run rpcs (perform rpc c)

  tables-publish_artifact :
      (id : String) (now : ℕ) (req : PublishRequest) (c : Conn Artifacts)
      → ((publish_artifact id now req c).1.tables ≡ c.tables)
        ⊎ ((publish_artifact id now req c).1.tables ≡ (create id now (new_artifact req) c).1.tables)
  unfolding publish_artifact
  tables-publish_artifact id now req c = ground arith

  tables-get_artifact : (id : String) (c : Conn Artifacts) → (get_artifact id c).1.tables ≡ c.tables
  unfolding get_artifact get
  tables-get_artifact id c = ground arith

  tables-list_artifacts :
      (model channel : String) (limit : ℤ) (c : Conn Artifacts)
      → (list_artifacts model channel limit c).1.tables ≡ c.tables
  unfolding list_artifacts list
  tables-list_artifacts model channel limit c = ground arith

  tables-get_latest :
      (model channel : String) (c : Conn Artifacts)
      → (get_latest model channel c).1.tables ≡ c.tables
  unfolding get_latest Registry.get_latest
  tables-get_latest model channel c = ground arith

  tables-generate_upload_url :
      (model version : String) (c : Conn Artifacts)
      → (generate_upload_url presign_upload model version c).1.tables ≡ c.tables
  unfolding generate_upload_url
  tables-generate_upload_url model version c = ground arith

  perform-IsValid :
      (rpc : Rpc) (c : Conn Artifacts) → IsValid c.tables → IsValid (perform rpc c).tables
  unfolding perform
  perform-IsValid (publishes id now req) c v = elim (tables-publish_artifact id now req c) [
    | inl same ↦ rw same v
    | inr created ↦ rw created (create-IsValid id now (new_artifact req) c v)
  ]
  perform-IsValid (gets id) c v = rw (tables-get_artifact id c) v
  perform-IsValid (lists model channel limit) c v =
      rw (tables-list_artifacts model channel limit c) v
  perform-IsValid (gets_latest model channel) c v = rw (tables-get_latest model channel c) v
  perform-IsValid (generates_upload_url model version) c v =
      rw (tables-generate_upload_url model version c) v

  -- However the service is used and whatever fails, the ids of the artifacts differ, and no model
  -- has the same version twice, if it was so at the start.
  pub versions_differ :
      (rpcs : List Rpc) (c : Conn Artifacts) → IsValid c.tables → IsValid (run rpcs c).tables
  unfolding run
  versions_differ [] c v = v
  versions_differ (rpc ∷ rpcs) c v = versions_differ rpcs (perform rpc c) (perform-IsValid rpc c v)
