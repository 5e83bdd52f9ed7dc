-- ===== src/Sql/Order/Pages.antt =====
-- What lies behind a cursor, in rows that ascend by the cursor's column in some order of the texts.
use robot_fleet.Prelude.{
  ℕ, zero, suc, ◌≤◌, ◌<◌, ◌≡◌, refl, ap, ◌∙◌, String, Bool, true, false, some, List, [], ◌∷◌, arith,
  select, length, take, drop, last, drop_last, ◌&&◌,
}
use robot_fleet.Sql.Order.{place, order_rows}
use robot_fleet.Sql.Order.Ascending.{TextOrder, Above, IsAscending, Above-select}

module _ {A : Type 0} where
  pub select-and :
      (p q : A → Bool) (xs : List A) → select (λ x. p x && q x) xs ≡ select q (select p xs)
  select-and p q [] = refl
  select-and p q (x ∷ xs) = ground (arith, select-and p q xs)

  pub select_all : (xs : List A) → select (λ x. true) xs ≡ xs
  select_all [] = refl
  select_all (x ∷ xs) = ap (◌∷◌ x) (select_all xs)

  -- the extra row of a page
  pub drop_last-take :
      (n : ℕ) (xs : List A) → n < length xs → drop_last (take (suc n) xs) ≡ take n xs
  drop_last-take n [] h = absurd (omega arith)
  drop_last-take zero (x ∷ xs) h = refl
  drop_last-take (suc n) (x ∷ []) h = absurd (omega arith)
  drop_last-take (suc n) (x ∷ y ∷ ys) h = ap (◌∷◌ x) (drop_last-take n (y ∷ ys) (omega arith))

  pub length-take_lt : (n : ℕ) (xs : List A) → n < length xs → length (take (suc n) xs) ≡ suc n
  length-take_lt n [] h = absurd (omega arith)
  length-take_lt zero (x ∷ xs) h = refl
  length-take_lt (suc n) (x ∷ xs) h = ap suc (length-take_lt n xs (omega arith))

  pub last-take :
      (n : ℕ) (xs : List A) → n < length xs → (x : A) × (last (take (suc n) xs) ≡ some x)
  last-take n [] h = absurd (omega arith)
  last-take zero (x ∷ xs) h = (x, refl)
  last-take (suc n) (x ∷ []) h = absurd (omega arith)
  last-take (suc n) (x ∷ y ∷ ys) h = last-take n (y ∷ ys) (omega arith)

  pub length-drop_lt : (n : ℕ) (xs : List A) → n < length xs → length (drop (suc n) xs) < length xs
  length-drop_lt n [] h = absurd (omega arith)
  length-drop_lt zero (x ∷ xs) h = omega arith
  length-drop_lt (suc n) (x ∷ xs) h = let r = length-drop_lt n xs (omega arith) in omega (arith, r)

  pub length-select-le : (p : A → Bool) (xs : List A) → length (select p xs) ≤ length xs
  length-select-le p [] = omega arith
  length-select-le p (x ∷ xs) = ground (arith, length-select-le p xs)

  length-place :
      (before : A → A → Bool) (x : A) (ys : List A) → length (place before x ys) ≡ suc (length ys)
  length-place before x [] = refl
  length-place before x (y ∷ ys) = ground (arith, length-place before x ys)

  pub length-order_rows :
      (before : A → A → Bool) (xs : List A) → length (order_rows before xs) ≡ length xs
  length-order_rows before [] = refl
  length-order_rows before (x ∷ xs) =
      length-place before x (order_rows before xs) ∙ ap suc (length-order_rows before xs)

module _ (o : TextOrder) {A : Type 0} (key : A → String) where
  abbrev pub behind : String → A → Bool
  behind k r = o.lt k (key r)

  select-behind-Above : (k : String) (xs : List A) → Above o key k xs → select (behind k) xs ≡ xs
  select-behind-Above k [] a = refl
  select-behind-Above k (x ∷ xs) a = ground (arith, select-behind-Above k xs a.1)

  last-Above :
      (k : String) (n : ℕ) (xs : List A) (r : A)
      → Above o key k xs
      → last (take (suc n) xs) ≡ some r
      → o.lt k (key r) ≡ true
  last-Above k n [] r a h = cc
  last-Above k zero (x ∷ xs) r a h = ground arith
  last-Above k (suc n) (x ∷ []) r a h = ground arith
  last-Above k (suc n) (x ∷ y ∷ ys) r a h = last-Above k n (y ∷ ys) r a.1 h

  ltb_asym : (j k : String) → o.lt j k ≡ true → o.lt k j ≡ false
  ltb_asym j k h = ground (arith, o.irrefl j, o.trans j k j)

  -- Behind the last row of a page lies exactly what the page left out.
  pub select-behind-last :
      (n : ℕ) (xs : List A) (r : A)
      → IsAscending o key xs
      → last (take (suc n) xs) ≡ some r
      → select (behind (key r)) xs ≡ drop (suc n) xs
  select-behind-last n [] r a h = cc
  select-behind-last zero (x ∷ xs) r a h =
      ground (arith, o.irrefl (key x), select-behind-Above (key x) xs a.0)
  select-behind-last (suc n) (x ∷ []) r a h = ground (arith, o.irrefl (key x))
  select-behind-last (suc n) (x ∷ y ∷ ys) r a h = ground (
    arith,
    select-behind-last n (y ∷ ys) r a.1 h,
    ltb_asym (key x) (key r) (last-Above (key x) n (y ∷ ys) r a.0 h),
  )

  pub behind-behind :
      (j k : String) (xs : List A)
      → o.lt j k ≡ true
      → select (behind k) (select (behind j) xs) ≡ select (behind k) xs
  behind-behind j k [] h = refl
  behind-behind j k (x ∷ xs) h = ground (arith, behind-behind j k xs h, o.trans j k (key x) h)

  select-Above : (k : String) (xs : List A) → Above o key k (select (behind k) xs)
  select-Above k [] = tt
  select-Above k (x ∷ xs) = ground (arith, select-Above k xs)

  pub last-behind :
      (k : String) (n : ℕ) (xs : List A) (r : A)
      → last (take (suc n) (select (behind k) xs)) ≡ some r
      → o.lt k (key r) ≡ true
  last-behind k n xs r = last-Above k n (select (behind k) xs) r (select-Above k xs)

  pub IsAscending-select :
      (p : A → Bool) (xs : List A) → IsAscending o key xs → IsAscending o key (select p xs)
  IsAscending-select p [] a = tt
  IsAscending-select p (x ∷ xs) a =
      ground (arith, IsAscending-select p xs a.1, Above-select o key p (key x) xs a.0)
