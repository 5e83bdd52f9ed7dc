-- ===== src/Sql/Order.antt =====
-- ORDER BY, as an insertion sort, which puts rows that tie in the reverse order of insertion. (SQLite leaves the
-- order of ties open; no theorem depends on it, except where it says so.)
pub mod Ascending
pub mod Pages
pub mod Permuted
use robot_fleet.Prelude.{Bool, List, [], ◌∷◌, if◌then◌else◌}

module _ {A : Type 0} (before : A → A → Bool) where
  abbrev pub place : A → List A → List A
  place x [] = x ∷ []
  place x (y ∷ ys) = if before x y then x ∷ y ∷ ys else y ∷ place x ys

  abbrev pub order_rows : List A → List A
  order_rows [] = []
  order_rows (x ∷ xs) = place x (order_rows xs)
