-- ===== src/Artifact/Registry/Newest.antt =====
-- The newest version of a model on a channel.
use robot_fleet.Prelude.{
  ℕ, suc, ◌≤◌, ◌≡◌, refl, String, true, Option, none, some, List, [], ◌∷◌, arith, All, inl, inr,
  Bool-cases, Option-cases, Result, ok, err, if◌then◌else◌, select, take,
}
use mathlib.Core.List.{Memᴰ}
use robot_fleet.Prelude.Outcome.{first}
use robot_fleet.Sql.{Conn}
use robot_fleet.Sql.Order.{place, order_rows}
use robot_fleet.Artifact.Error.{Error, not_found}
use robot_fleet.Artifact.Registry.{
  ArtifactRecord, Artifacts, is_listed, is_newer, newest_first, latest_name, get_latest, list,
}

-- no row of `rows` that the listing shows is newer than `r`
abbrev pub IsNewest : String → String → ArtifactRecord → Artifacts → Type 0
IsNewest model channel r rows =
    All (λ q. is_listed model channel q ≡ true → q.created_at ≤ r.created_at) rows

-- the first row in the order of the listing
abbrev head_place : Option ArtifactRecord → ArtifactRecord → ArtifactRecord
head_place none x = x
head_place (some y) x = if is_newer x y then x else y

first-place :
    (x : ArtifactRecord) (ys : Artifacts)
    → first (place is_newer x ys) ≡ some (head_place (first ys) x)
first-place x [] = refl
first-place x (y ∷ ys) = ground arith

module _ (model channel : String) where
  abbrev top : Artifacts → Option ArtifactRecord
  top rows = first (order_rows is_newer (select (is_listed model channel) rows))

  top-cons :
      (x : ArtifactRecord) (rows : Artifacts)
      → top (x ∷ rows)
        ≡ (if is_listed model channel x then some (head_place (top rows) x) else top rows)
  top-cons x rows =
      ground (arith, first-place x (order_rows is_newer (select (is_listed model channel) rows)))

  IsNewest-mono :
      (r q : ArtifactRecord) (rows : Artifacts)
      → r.created_at ≤ q.created_at
      → IsNewest model channel r rows
      → IsNewest model channel q rows
  IsNewest-mono r q [] le n = tt
  IsNewest-mono r q (x ∷ xs) le n = (λ h. let k = n.0 h in omega arith, IsNewest-mono r q xs le n.1)

  top-none : (rows : Artifacts) → top rows ≡ none → select (is_listed model channel) rows ≡ []
  top-none [] h = refl
  top-none (x ∷ xs) h = ground (arith, top-cons x xs, top-none xs)

  none-IsNewest :
      (r : ArtifactRecord) (rows : Artifacts) → top rows ≡ none → IsNewest model channel r rows
  none-IsNewest r [] h = tt
  none-IsNewest r (x ∷ xs) h =
      let same = top-cons x xs in
      (λ listed. absurd (ground arith), none-IsNewest r xs (ground arith))

  top-IsNewest :
      (rows : Artifacts) (r : ArtifactRecord)
      → top rows ≡ some r
      → IsNewest model channel r rows × (is_listed model channel r ≡ true) × Memᴰ r rows
  top-IsNewest [] r h = cc
  top-IsNewest (x ∷ xs) r h =
      let same = top-cons x xs in
      elim (Bool-cases (is_listed model channel x)) [
        | inr unlisted ↦
            let (newest, listed, stored) = top-IsNewest xs r (ground arith) in
            ((λ l. absurd (ground arith), newest), listed, Memᴰ.tail stored)
        | inl x_listed ↦ elim (Option-cases (top xs)) [
          | inl empty ↦
              let e : r ≡ x = ground arith in
              ((λ l. ground arith, none-IsNewest r xs empty), ground arith, Memᴰ.head e)
          | inr (y, later) ↦
              let (newest, listed, stored) = top-IsNewest xs y later in
              elim (Bool-cases (is_newer x y)) [
                | inl newer ↦
                    let e : r ≡ x = ground arith in
                    (
                      (λ l. ground arith, IsNewest-mono y r xs (ground arith) newest),
                      ground arith,
                      Memᴰ.head e,
                    )
                | inr older ↦
                    let e : r ≡ y = ground arith in
                    (
                      (λ l. ground arith, IsNewest-mono y r xs (ground arith) newest),
                      ground arith,
                      rw e (Memᴰ.tail stored),
                    )
              ]
        ]
      ]

abbrev pub answered : Error → Option ArtifactRecord → Result Error ArtifactRecord
answered e none = err e
answered e (some r) = ok r

-- `get_latest` answers a stored artifact of that model and that channel, and no stored one of that
-- model and that channel is newer.
pub get_latest-IsNewest :
    (model channel : String) (c : Conn Artifacts) (r : ArtifactRecord)
    → (get_latest model channel c).0 ≡ ok r
    → IsNewest model channel r c.tables × (is_listed model channel r ≡ true) × Memᴰ r c.tables
unfolding get_latest newest_first
get_latest-IsNewest model channel c r h = top-IsNewest model channel c.tables r (ground arith)

take_head : (limit : ℕ) (rows : Artifacts) → first (take (suc limit) rows) ≡ first rows
take_head limit [] = refl
take_head limit (r ∷ rs) = refl

-- The latest artifact is the head of the listing with the same model and channel, whatever the
-- listing's limit, and there is none if the listing is empty. The limit is above 0 and nothing
-- fails. Rows of the same second are taken to come in the same order in both queries.
pub get_latest-list :
    (model channel : String) (limit : ℕ) (c : Conn Artifacts) (rows : List ArtifactRecord)
    → c.faults ≡ []
    → (list model channel (suc limit) c).0 ≡ ok rows
    → (get_latest model channel c).0 ≡ answered (not_found (latest_name model channel)) (first rows)
unfolding get_latest list
get_latest-list model channel limit c rows works h =
    ground (arith, take_head limit (newest_first model channel c.tables))
