-- ===== src/Tests/ArtifactTests.antt =====
-- The artifact store at concrete inputs.
use robot_fleet.Prelude.{ℕ, ◌≡◌, refl, String, true, none, List, [], ◌∷◌, Result, err}
use robot_fleet.Prelude.Int.{pos}
use mathlib.Core.List.{Memᴰ}
use robot_fleet.Sql.{Conn}
use robot_fleet.Sql.Table.{contains}
use robot_fleet.Artifact.Error.{Error, storage}
use robot_fleet.Artifact.Registry.{
  ArtifactRecord, Artifacts, is_listed, has_version, newest_first, get_latest,
}
use robot_fleet.Artifact.Registry.Newest.{IsNewest, get_latest-IsNewest}
use robot_fleet.Artifact.Registry.Versions.{IsValid}
use robot_fleet.Artifact.Server.{PublishRequest}
use robot_fleet.Artifact.Server.Publication.{Rpc, publishes, gets_latest, run, versions_differ}

abbrev artifact : String → String → ℕ → ArtifactRecord
artifact id version at = record {
  id = id;
  model = "humanoid-v2";
  version = version;
  sha256 = "sum";
  size_bytes = pos 1000;
  channel = "stable";
  object_key = "key";
  download_url = "";
  created_at = at;
}

abbrev artifacts : Conn Artifacts
artifacts = record {
  tables = artifact "a1" "1.0.0" 10 ∷ artifact "a2" "1.1.0" 20 ∷ [];
  saved = none;
  faults = [];
}

abbrev release : String → PublishRequest
release version = record {
  model = "humanoid-v2";
  version = version;
  sha256 = "sum";
  size_bytes = 9223372036854775808;
  channel = "stable";
  object_key = "key";
}

get_latest-IsNewest_example :
    IsNewest "humanoid-v2" "stable" (artifact "a2" "1.1.0" 20) artifacts.tables
    × (is_listed "humanoid-v2" "stable" (artifact "a2" "1.1.0" 20) ≡ true)
    × Memᴰ (artifact "a2" "1.1.0" 20) artifacts.tables
unfolding get_latest newest_first
get_latest-IsNewest_example =
    get_latest-IsNewest "humanoid-v2" "stable" artifacts (artifact "a2" "1.1.0" 20) refl

artifacts-IsValid : IsValid artifacts.tables
unfolding contains has_version
artifacts-IsValid = record { unique = (refl, (refl, tt)); versions = (refl, (refl, tt)) }

abbrev no_storage : String → ℕ → Result Error String
no_storage key seconds = err (storage "no bucket")

abbrev rpcs : List Rpc
rpcs =
    publishes "a3" 30 (release "1.2.0")
    ∷ publishes "a4" 40 (release "1.2.0")
    ∷ gets_latest "humanoid-v2" "stable"
    ∷ []

versions_differ_example : IsValid (run no_storage rpcs artifacts).tables
versions_differ_example = versions_differ no_storage rpcs artifacts artifacts-IsValid
