-- ===== src/Artifact/Registry/Versions.antt =====
-- What is stored, what finds it, and that a version is stored once.
use robot_fleet.Prelude.{
  ℕ, ◌≡◌, refl, String, false, Option, none, some, [], ◌∷◌, ◌++◌, arith, eq_iff, ◌&&◌, ◌||◌, ◌==◌,
  Result, ok, err, if◌then◌else◌, ◌⊎◌, inl, inr,
}
use robot_fleet.Sql.{Conn}
use robot_fleet.Sql.Table.{contains, find-append, contains-is_some, IsUnique, IsUnique-append}
use robot_fleet.Artifact.Error.{Error, not_found, version_conflict}
use robot_fleet.Artifact.Registry.{
  NewArtifact, ArtifactRecord, Artifacts, id_of, has_version, new_record, create, get,
}

-- An artifact is stored exactly if its id is new and its model has no such version yet; a version that
-- is taken is refused as a conflict and nothing changes.
pub create_result :
    (id : String) (now : ℕ) (a : NewArtifact) (c : Conn Artifacts)
    → c.faults ≡ []
    → create id now a c ≡ (
        if contains id_of id c.tables || has_version a.model a.version c.tables
        then (err (version_conflict a.model a.version), c)
        else (ok (new_record id now a), record c { tables = c.tables ++ new_record id now a ∷ [] }))
unfolding create
create_result id now a c works = ground arith

abbrev pub lookup_result : String → Option ArtifactRecord → Result Error ArtifactRecord
lookup_result id none = err (not_found id)
lookup_result id (some r) = ok r

-- A stored artifact is found under its id as it was returned, and every other id finds what it found
-- before.
pub get-create :
    (id j : String) (now : ℕ) (a : NewArtifact) (c : Conn Artifacts) (r : ArtifactRecord)
    → c.faults ≡ []
    → (create id now a c).0 ≡ ok r
    → (get j (create id now a c).1).0 ≡ (if id == j then ok r else (get j c).0)
unfolding create get
get-create id j now a c r works h = ground (
  arith,
  eq_iff id j,
  find-append id_of j (new_record id now a) c.tables,
  contains-is_some id_of j c.tables,
)

-- each model's versions differ
abbrev pub VersionsDiffer : Artifacts → Type 0
VersionsDiffer [] = Unit
VersionsDiffer (r ∷ rs) = (has_version r.model r.version rs ≡ false) × VersionsDiffer rs

pub record IsValid (rows : Artifacts) : Type 0 where
  pub unique : IsUnique id_of rows
  pub versions : VersionsDiffer rows

has_version-append :
    (m v : String) (r : ArtifactRecord) (rows : Artifacts)
    → has_version m v (rows ++ r ∷ [])
      ≡ has_version m v rows || ((r.model == m) && (r.version == v))
unfolding has_version
has_version-append m v r [] = ground arith
has_version-append m v r (x ∷ xs) = ground (arith, has_version-append m v r xs)

VersionsDiffer-append :
    (r : ArtifactRecord) (rows : Artifacts)
    → has_version r.model r.version rows ≡ false
    → VersionsDiffer rows
    → VersionsDiffer (rows ++ r ∷ [])
unfolding has_version
VersionsDiffer-append r [] h v = (refl, tt)
VersionsDiffer-append r (x ∷ xs) h v = ground (
  arith,
  has_version-append x.model x.version r xs,
  eq_iff x.model r.model,
  eq_iff x.version r.version,
  eq_iff r.model x.model,
  eq_iff r.version x.version,
  VersionsDiffer-append r xs,
)

tables-create :
    (id : String) (now : ℕ) (a : NewArtifact) (c : Conn Artifacts)
    → ((create id now a c).1.tables ≡ c.tables)
      ⊎ (contains id_of id c.tables ≡ false)
        × (has_version a.model a.version c.tables ≡ false)
        × ((create id now a c).1.tables ≡ c.tables ++ new_record id now a ∷ [])
unfolding create
tables-create id now a c = ground arith

pub create-IsValid :
    (id : String) (now : ℕ) (a : NewArtifact) (c : Conn Artifacts)
    → IsValid c.tables
    → IsValid (create id now a c).1.tables
create-IsValid id now a c v = elim (tables-create id now a c) [
  | inl same ↦ rw same v
  | inr (fresh, new, more) ↦ rw more (record {
    unique = IsUnique-append id_of (new_record id now a) c.tables fresh v.unique;
    versions = VersionsDiffer-append (new_record id now a) c.tables new v.versions;
  })
]
