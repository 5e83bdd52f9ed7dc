-- ===== src/Sql/Order/Ascending.antt =====
-- Rows ordered by a TEXT column that tells them apart, ASC or DESC.
use robot_fleet.Prelude.{
  ◌≡◌, refl, ◌∙◌, String, Bool, true, false, List, [], ◌∷◌, arith, if◌then◌else◌, select, All, ◌==◌,
  ◌||◌, eq_iff,
}
use robot_fleet.Prelude.Text.{text_ltb, text_ltb_irrefl, text_ltb_trans, text_ltb_total}
use robot_fleet.Sql.Table.{contains, IsUnique}
use robot_fleet.Sql.Order.{place, order_rows}

-- an order of texts in which two different ones always compare
pub record TextOrder : Type 0 where
  pub lt : String → String → Bool
  pub irrefl : (s : String) → lt s s ≡ false
  pub trans : (s t u : String) → lt s t ≡ true → lt t u ≡ true → lt s u ≡ true
  pub total : (s t : String) → lt s t ≡ false → lt t s ≡ false → s ≡ t

abbrev pub asc : TextOrder
asc = record {
  lt = text_ltb;
  irrefl = text_ltb_irrefl;
  trans = text_ltb_trans;
  total = text_ltb_total;
}

abbrev pub desc : TextOrder
desc = record {
  lt = λ s t. text_ltb t s;
  irrefl = text_ltb_irrefl;
  trans = λ s t u h k. text_ltb_trans u t s k h;
  total = λ s t h k. text_ltb_total s t k h;
}

module _ (o : TextOrder) {A : Type 0} (key : A → String) where
  abbrev pub key_before : A → A → Bool
  key_before r q = o.lt (key r) (key q)

  abbrev pub Above : String → List A → Type 0
  Above k = All (λ r. o.lt k (key r) ≡ true)

  abbrev pub IsAscending : List A → Type 0
  IsAscending [] = Unit
  IsAscending (x ∷ xs) = Above (key x) xs × IsAscending xs

  pub Above-mono : (j k : String) (xs : List A) → o.lt j k ≡ true → Above k xs → Above j xs
  Above-mono j k [] h a = tt
  Above-mono j k (x ∷ xs) h a = (o.trans j k (key x) h a.0, Above-mono j k xs h a.1)

  Above-place :
      (k : String) (x : A) (ys : List A)
      → o.lt k (key x) ≡ true
      → Above k ys
      → Above k (place key_before x ys)
  Above-place k x [] h a = (h, tt)
  Above-place k x (y ∷ ys) h a = ground (arith, Above-place k x ys h a.1)

  contains-place :
      (k : String) (x : A) (ys : List A)
      → contains key k (place key_before x ys) ≡ (key x == k) || contains key k ys
  unfolding contains
  contains-place k x [] = ground arith
  contains-place k x (y ∷ ys) = ground (arith, contains-place k x ys)

  contains-order_rows :
      (k : String) (xs : List A) → contains key k (order_rows key_before xs) ≡ contains key k xs
  unfolding contains
  contains-order_rows k [] = refl
  contains-order_rows k (x ∷ xs) =
      ground (arith, contains-place k x (order_rows key_before xs), contains-order_rows k xs)

  place-IsAscending :
      (x : A) (ys : List A)
      → contains key (key x) ys ≡ false
      → IsAscending ys
      → IsAscending (place key_before x ys)
  unfolding contains
  place-IsAscending x [] h a = (tt, tt)
  place-IsAscending x (y ∷ ys) h a = ground (
    arith,
    eq_iff (key y) (key x),
    o.total (key x) (key y),
    Above-mono (key x) (key y) ys,
    Above-place (key y) x ys,
    place-IsAscending x ys,
  )

  pub order_rows-IsAscending :
      (xs : List A) → IsUnique key xs → IsAscending (order_rows key_before xs)
  order_rows-IsAscending [] u = tt
  order_rows-IsAscending (x ∷ xs) u =
      place-IsAscending x (order_rows key_before xs) (contains-order_rows (key x) xs ∙ u.0)
        (order_rows-IsAscending xs u.1)

module _ {A : Type 0} (key : A → String) (p : A → Bool) where
  contains-select :
      (k : String) (xs : List A) → contains key k xs ≡ false → contains key k (select p xs) ≡ false
  unfolding contains
  contains-select k [] h = refl
  contains-select k (x ∷ xs) h = ground (arith, contains-select k xs)

  pub IsUnique-select : (xs : List A) → IsUnique key xs → IsUnique key (select p xs)
  IsUnique-select [] u = tt
  IsUnique-select (x ∷ xs) u = ground (arith, contains-select (key x) xs, IsUnique-select xs)

module _ (o : TextOrder) {A : Type 0} (key : A → String) (p : A → Bool) where
  pub Above-select : (k : String) (xs : List A) → Above o key k xs → Above o key k (select p xs)
  Above-select k [] a = tt
  Above-select k (x ∷ xs) a = ground (arith, Above-select k xs a.1)

  place_first :
      (x : A) (ys : List A) → Above o key (key x) ys → place (key_before o key) x ys ≡ x ∷ ys
  place_first x [] a = refl
  place_first x (y ∷ ys) a = ground arith

  select-place :
      (x : A) (ys : List A)
      → IsAscending o key ys
      → select p (place (key_before o key) x ys)
        ≡ (if p x then place (key_before o key) x (select p ys) else select p ys)
  select-place x [] a = refl
  select-place x (y ∷ ys) a = ground (
    arith,
    select-place x ys a.1,
    Above-mono o key (key x) (key y) ys,
    Above-select (key x) ys,
    place_first x (select p ys),
  )

  -- The rows that a further condition picks come in the same order.
  pub order_rows-select :
      (xs : List A)
      → IsUnique key xs
      → order_rows (key_before o key) (select p xs) ≡ select p (order_rows (key_before o key) xs)
  order_rows-select [] u = refl
  order_rows-select (x ∷ xs) u = ground (
    arith,
    order_rows-select xs u.1,
    select-place x (order_rows (key_before o key) xs) (order_rows-IsAscending o key xs u.1),
  )
