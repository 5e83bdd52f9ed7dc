-- ===== src/Sql/Order/Permuted.antt =====
-- Rows in another order: what they have in common when a TEXT column tells them apart.
use mathlib.Core.List.{Permᴰ}
use mathlib.Core.List.Permᴰ
use robot_fleet.Prelude.{
  ◌≡◌, refl, ap, ◌∙◌, String, Bool, false, List, [], ◌∷◌, arith, ◌==◌, eq_iff, Bool-cases, inl, inr,
}
use robot_fleet.Sql.Table.{contains, find, IsUnique}
use robot_fleet.Sql.Order.{place, order_rows}
use robot_fleet.Sql.Order.Ascending.{TextOrder, key_before}

module _ {A : Type 0} (before : A → A → Bool) where
  place-perm : (x : A) (ys : List A) → Permᴰ (place before x ys) (x ∷ ys)
  place-perm x [] = Permᴰ.refl (x ∷ [])
  place-perm x (y ∷ ys) = elim (Bool-cases (before x y)) [
    | inl first ↦ rw first (Permᴰ.refl (x ∷ y ∷ ys))
    | inr later ↦ rw later (Permᴰ.trans (Permᴰ.cons refl (place-perm x ys)) (Permᴰ.swap refl refl))
  ]

  pub order_rows-perm : (xs : List A) → Permᴰ (order_rows before xs) xs
  order_rows-perm [] = Permᴰ.refl []
  order_rows-perm (x ∷ xs) =
      Permᴰ.trans (place-perm x (order_rows before xs)) (Permᴰ.cons refl (order_rows-perm xs))

module _ {A : Type 0} (key : A → String) where
  contains-perm :
      (k : String) {xs ys : List A} → Permᴰ xs ys → contains key k xs ≡ contains key k ys
  unfolding contains
  contains-perm k Permᴰ.nil = refl
  contains-perm k (Permᴰ.cons e p) = ground (arith, ap key e, contains-perm k p)
  contains-perm k (Permᴰ.swap e f) = ground (arith, ap key e, ap key f)
  contains-perm k (Permᴰ.trans p q) = contains-perm k p ∙ contains-perm k q

  pub IsUnique-perm : {xs ys : List A} → Permᴰ xs ys → IsUnique key xs → IsUnique key ys
  unfolding contains
  IsUnique-perm Permᴰ.nil u = tt
  IsUnique-perm (Permᴰ.cons {a = a} e p) u =
      ground (arith, ap key e, contains-perm (key a) p, IsUnique-perm p u.1)
  IsUnique-perm (Permᴰ.swap {a = a} {b = b} e f) u =
      ground (arith, ap key e, ap key f, eq_iff (key a) (key b), eq_iff (key b) (key a))
  IsUnique-perm (Permᴰ.trans p q) u = IsUnique-perm q (IsUnique-perm p u)

  pub find-perm :
      (k : String) {xs ys : List A} → Permᴰ xs ys → IsUnique key xs → find key k xs ≡ find key k ys
  unfolding find contains
  find-perm k Permᴰ.nil u = refl
  find-perm k (Permᴰ.cons e p) u = ground (arith, e, find-perm k p u.1)
  find-perm k (Permᴰ.swap {a = a} {b = b} e f) u =
      ground (arith, e, f, eq_iff (key a) k, eq_iff (key b) k, eq_iff (key b) (key a))
  find-perm k (Permᴰ.trans p q) u = find-perm k p u ∙ find-perm k q (IsUnique-perm p u)

module _ (o : TextOrder) {A : Type 0} (key : A → String) where
  place-place :
      (x y : A) (zs : List A)
      → (key x == key y) ≡ false
      → place (key_before o key) x (place (key_before o key) y zs)
        ≡ place (key_before o key) y (place (key_before o key) x zs)
  place-place x y [] h = ground (
    arith,
    eq_iff (key x) (key y),
    o.total (key x) (key y),
    o.trans (key x) (key y) (key x),
    o.irrefl (key x),
  )
  place-place x y (z ∷ zs) h = ground (
    arith,
    eq_iff (key x) (key y),
    o.total (key x) (key y),
    o.trans (key x) (key y) (key x),
    o.trans (key x) (key y) (key z),
    o.trans (key y) (key x) (key z),
    o.irrefl (key x),
    place-place x y zs h,
  )

  pub order_rows-eq_of_perm :
      {xs ys : List A}
      → Permᴰ xs ys
      → IsUnique key xs
      → order_rows (key_before o key) xs ≡ order_rows (key_before o key) ys
  unfolding contains
  order_rows-eq_of_perm Permᴰ.nil u = refl
  order_rows-eq_of_perm (Permᴰ.cons e p) u = ground (arith, e, order_rows-eq_of_perm p u.1)
  order_rows-eq_of_perm (Permᴰ.swap {a = a} {b = b} {l = l} e f) u = ground (
    arith,
    e,
    f,
    eq_iff (key b) (key a),
    eq_iff (key a) (key b),
    place-place a b (order_rows (key_before o key) l),
  )
  order_rows-eq_of_perm (Permᴰ.trans p q) u =
      order_rows-eq_of_perm p u ∙ order_rows-eq_of_perm q (IsUnique-perm key p u)
