-- ===== src/Sql/Table.antt =====
-- Rows of a table in the order of insertion, and the statements on them that name a row by a TEXT
-- column. `key` is the column.
use robot_fleet.Prelude.{
  ℕ, suc, ◌≡◌, refl, is_some, nat_eq, not, String, Bool, true, false, Option, none, some, List, [],
  ◌∷◌, ◌++◌, arith, ◌==◌, eq_iff, if◌then◌else◌, ◌||◌,
}
use mathlib.Core.Option

module _ {A : Type 0} (key : A → String) where
  -- SELECT … WHERE key = k, the first row
  unfoldable pub find : String → List A → Option A
  find k [] = none
  find k (r ∷ rs) = if key r == k then some r else find k rs

  unfoldable pub contains : String → List A → Bool
  contains k [] = false
  contains k (r ∷ rs) = if key r == k then true else contains k rs

  -- the number of rows that an UPDATE … WHERE key = k changes
  unfoldable pub count : String → List A → ℕ
  count k [] = 0
  count k (r ∷ rs) = if key r == k then suc (count k rs) else count k rs

  -- UPDATE … WHERE key = k
  unfoldable pub modify : String → (A → A) → List A → List A
  modify k f [] = []
  modify k f (r ∷ rs) = (if key r == k then f r else r) ∷ modify k f rs

  -- PRIMARY KEY, UNIQUE
  abbrev pub IsUnique : List A → Type 0
  IsUnique [] = Unit
  IsUnique (r ∷ rs) = (contains (key r) rs ≡ false) × IsUnique rs

  pub count-eq-zero : (k : String) (rs : List A) → nat_eq (count k rs) 0 ≡ not (contains k rs)
  unfolding count contains
  count-eq-zero k [] = refl
  count-eq-zero k (r ∷ rs) = ground (arith, count-eq-zero k rs)

  pub find-append :
      (k : String) (r : A) (rs : List A)
      → find k (rs ++ r ∷ [])
        ≡ (if contains k rs then find k rs else if key r == k then some r else none)
  unfolding find contains
  find-append k r [] = refl
  find-append k r (x ∷ rs) = ground (arith, find-append k r rs)

  pub contains-append :
      (k : String) (r : A) (rs : List A) → contains k (rs ++ r ∷ []) ≡ contains k rs || (key r == k)
  unfolding contains
  contains-append k r [] = ground arith
  contains-append k r (x ∷ rs) = ground (arith, contains-append k r rs)

  pub find-contains : (k : String) (rs : List A) → contains k rs ≡ false → find k rs ≡ none
  unfolding find contains
  find-contains k [] h = refl
  find-contains k (x ∷ rs) h = ground (arith, find-contains k rs)

  pub contains-find : (k : String) (rs : List A) → find k rs ≡ none → contains k rs ≡ false
  unfolding find contains
  contains-find k [] h = refl
  contains-find k (x ∷ rs) h = ground (arith, contains-find k rs)

  pub find-some-contains :
      (k : String) (rs : List A) (r : A) → find k rs ≡ some r → contains k rs ≡ true
  unfolding find contains
  find-some-contains k [] r h = cc
  find-some-contains k (x ∷ rs) r h = ground (arith, find-some-contains k rs r)

  pub contains-is_some : (k : String) (rs : List A) → contains k rs ≡ is_some (find k rs)
  unfolding find contains
  contains-is_some k [] = refl
  contains-is_some k (x ∷ rs) = ground (arith, contains-is_some k rs)

  pub key-find : (k : String) (rs : List A) (r : A) → find k rs ≡ some r → key r ≡ k
  unfolding find
  key-find k [] r h = cc
  key-find k (x ∷ rs) r h = ground (arith, eq_iff (key x) k, key-find k rs r)

  pub find-modify :
      (k j : String) (f : A → A) (rs : List A)
      → ((r : A) → key (f r) ≡ key r)
      → find j (modify k f rs) ≡ (if k == j then Option.map f (find j rs) else find j rs)
  unfolding find modify
  find-modify k j f [] h = ground arith
  find-modify k j f (x ∷ rs) h = ground (
    arith,
    h x,
    eq_iff (key x) k,
    eq_iff (key x) j,
    eq_iff (key (f x)) j,
    eq_iff k j,
    find-modify k j f rs h,
  )

  pub modify_absent :
      (k : String) (f : A → A) (rs : List A) → contains k rs ≡ false → modify k f rs ≡ rs
  unfolding contains modify
  modify_absent k f [] h = refl
  modify_absent k f (x ∷ rs) h = ground (arith, modify_absent k f rs)

  pub IsUnique-append :
      (r : A) (rs : List A) → contains (key r) rs ≡ false → IsUnique rs → IsUnique (rs ++ r ∷ [])
  unfolding contains
  IsUnique-append r [] h u = (refl, tt)
  IsUnique-append r (x ∷ rs) h u = ground (
    arith,
    contains-append (key x) r rs,
    eq_iff (key x) (key r),
    eq_iff (key r) (key x),
    IsUnique-append r rs,
  )

-- An update under one column leaves what another column shows, if it leaves that column.
module _ {A : Type 0} (key other : A → String) (f : A → A)
    (same : (r : A) → other (f r) ≡ other r) where
  pub contains-modify :
      (k j : String) (rs : List A) → contains other j (modify key k f rs) ≡ contains other j rs
  unfolding contains modify
  contains-modify k j [] = refl
  contains-modify k j (x ∷ rs) = ground (arith, same x, contains-modify k j rs)

  pub IsUnique-modify :
      (k : String) (rs : List A) → IsUnique other rs → IsUnique other (modify key k f rs)
  unfolding modify
  IsUnique-modify k [] u = tt
  IsUnique-modify k (x ∷ rs) u = ground (
    arith,
    same x,
    contains-modify k (other x) rs,
    contains-modify k (other (f x)) rs,
    IsUnique-modify k rs,
  )
