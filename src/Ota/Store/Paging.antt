-- ===== src/Ota/Store/Paging.antt =====
-- `list_for_device`, page after page.
pub mod Ties
use robot_fleet.Prelude.{
  ℕ, zero, suc, ◌+◌, ◌-◌, ◌≤◌, ◌<◌, ◌≡◌, refl, ap, ◌∙◌, sym, String, Bool, true, false, Option,
  none, some, List, [], ◌∷◌, ◌++◌, arith, map, ◌&&◌, ◌==◌, Result, ok, err, length, take, drop,
  select, ltb, take-append-drop, take_all, inl, inr, Bool-cases, last, get_elem?, All,
  if◌then◌else◌,
}
use mathlib.Core.Option
use robot_fleet.Prelude.Text.{text_ltb}
use robot_fleet.Sql.{Conn}
use robot_fleet.Sql.Table.{IsUnique}
use robot_fleet.Sql.Order.{order_rows}
use robot_fleet.Sql.Order.Ascending.{
  desc, IsAscending, order_rows-IsAscending, order_rows-select, IsUnique-select,
}
use robot_fleet.Sql.Order.Pages.{
  behind, select-and, select_all, length-take_lt, last-take, length-drop_lt, select-behind-last,
  behind-behind, last-behind, IsAscending-select, length-select-le, length-order_rows,
}
use robot_fleet.Ota.Error.{Error}
use robot_fleet.Ota.Store.{
  JobRow, JobRecord, Jobs, row_to_record, is_listed, created_after, created_at_of, job_page,
  list_for_device,
}

abbrev pub created_at : JobRow → String
created_at r = r.created_at

module _ {A B : Type 0} (f : A → B) where
  map-append : (xs ys : List A) → map f (xs ++ ys) ≡ map f xs ++ map f ys
  map-append [] ys = refl
  map-append (x ∷ xs) ys = ap (◌∷◌ (f x)) (map-append xs ys)

  length-map : (xs : List A) → length (map f xs) ≡ length xs
  length-map [] = refl
  length-map (x ∷ xs) = ap suc (length-map xs)

  take-map : (n : ℕ) (xs : List A) → take n (map f (take (suc n) xs)) ≡ map f (take n xs)
  take-map zero xs = refl
  take-map (suc n) [] = refl
  take-map (suc n) (x ∷ xs) = ap (◌∷◌ (f x)) (take-map n xs)

  get_elem?-last :
      (n : ℕ) (xs : List A) (r : A)
      → last (take (suc n) xs) ≡ some r
      → suc n < length xs
      → get_elem? (map f (take (suc (suc n)) xs)) n ≡ some (f r)
  get_elem?-last n [] r h k = cc
  get_elem?-last zero (x ∷ xs) r h k = ground arith
  get_elem?-last (suc n) (x ∷ []) r h k = absurd (omega arith)
  get_elem?-last (suc n) (x ∷ y ∷ ys) r h k = get_elem?-last n (y ∷ ys) r h (omega arith)

-- the two shapes of a page
job_page_more :
    (limit n : ℕ) (xs : List JobRow) (r : JobRow)
    → limit ≡ suc n
    → limit < length xs
    → last (take (suc n) xs) ≡ some r
    → job_page limit (map row_to_record (take (suc limit) xs))
      ≡ (map row_to_record (take limit xs), some r.created_at)
unfolding job_page
job_page_more limit n xs r pos h e =
    let before : suc n - 1 ≡ n = omega arith in
    rw (pos, before)
      (ground (
        arith,
        length-map row_to_record (take (suc (suc n)) xs),
        length-take_lt (suc n) xs (omega arith),
        take-map row_to_record (suc n) xs,
        get_elem?-last row_to_record n xs r e (omega arith),
      ))

job_page_last :
    (limit : ℕ) (xs : List JobRow)
    → length xs ≤ limit
    → job_page limit (map row_to_record (take (suc limit) xs)) ≡ (map row_to_record xs, none)
unfolding job_page
job_page_last limit xs h = ground (
  arith,
  take-map row_to_record limit xs,
  take_all (suc limit) xs (omega arith),
  take_all limit xs h,
  length-map row_to_record xs,
)

module _ (device_id : String) (limit : ℕ) (c : Conn Jobs) where
  of_device : JobRow → Bool
  of_device = is_listed device_id none

  -- the device's jobs, newest first
  abbrev pub listing : List JobRow
  listing = order_rows created_after (select (is_listed device_id none) c.tables)

  is_before : Option String → JobRow → Bool
  is_before none r = true
  is_before (some k) r = text_ltb r.created_at k

  rest : Option String → List JobRow
  rest cursor = select (is_before cursor) listing

  -- A client that asks for pages until it is given no cursor, nothing changing in between.
  abbrev pub follow :
      (Option String → List JobRecord)
      → Result Error (List JobRecord × Option String)
      → List JobRecord
  follow next (err e) = []
  follow next (ok (records, none)) = records
  follow next (ok (records, some cursor)) = records ++ next (some cursor)

  pub walk : ℕ → Option String → List JobRecord
  walk zero cursor = []
  walk (suc fuel) cursor = follow (walk fuel) (list_for_device device_id limit cursor c).0

  module _ (works : c.faults ≡ [])
      (unique : IsUnique created_at (select (is_listed device_id none) c.tables)) where
    listing-IsAscending : IsAscending desc created_at listing
    listing-IsAscending = order_rows-IsAscending desc created_at _ unique

    select-is_listed :
        (cursor : Option String) (rows : List JobRow)
        → select (is_listed device_id cursor) rows
          ≡ select (is_before cursor) (select (is_listed device_id none) rows)
    unfolding is_before
    select-is_listed none rows = sym (select_all (select (is_listed device_id none) rows))
    select-is_listed (some k) rows =
        select-and (is_listed device_id none) (λ r. text_ltb r.created_at k) rows

    list_for_device_result :
        (cursor : Option String)
        → (list_for_device device_id limit cursor c).0
          ≡ ok (job_page limit (map row_to_record (take (suc limit) (rest cursor))))
    unfolding list_for_device rest
    list_for_device_result cursor =
        let more : limit + 1 ≡ suc limit = omega arith in
        ground (
          arith,
          more,
          select-is_listed cursor c.tables,
          order_rows-select desc created_at (is_before cursor)
              (select (is_listed device_id none) c.tables) unique,
        )

    rest-next :
        (n : ℕ) (cursor : Option String) (r : JobRow)
        → last (take (suc n) (rest cursor)) ≡ some r
        → rest (some r.created_at) ≡ drop (suc n) (rest cursor)
    unfolding rest is_before
    rest-next n none r h = rw (select_all listing) (
        select-behind-last desc created_at n listing r listing-IsAscending
          (rw (select_all listing) at h))
    rest-next n (some k) r h =
        sym (
          behind-behind desc created_at k r.created_at listing
            (last-behind desc created_at k n listing r h))
        ∙ select-behind-last desc created_at n (select (behind desc created_at k) listing) r
            (IsAscending-select desc created_at (behind desc created_at k) listing
              listing-IsAscending)
            h

    walk-rest :
        (fuel n : ℕ) (cursor : Option String)
        → limit ≡ suc n
        → length (rest cursor) < fuel
        → walk fuel cursor ≡ map row_to_record (rest cursor)
    unfolding walk
    walk-rest zero n cursor pos h = absurd (omega arith)
    walk-rest (suc fuel) n cursor pos h = elim (Bool-cases (ltb limit (length (rest cursor)))) [
      | inl more ↦
          let (r, e) = last-take n (rest cursor) (ground arith) in
          let next = rest-next n cursor r e in
          let m : limit < length (rest cursor) = ground arith in
          let later =
            walk-rest fuel n (some r.created_at) pos
              (omega (arith, length-drop_lt n (rest cursor) (omega arith), ap length next)) in
          ground (
            arith,
            list_for_device_result cursor,
            job_page_more limit n (rest cursor) r pos m e,
            later,
            next,
            map-append row_to_record (take limit (rest cursor)) (drop limit (rest cursor)),
            take-append-drop limit (rest cursor),
          )
      | inr enough ↦
          ground
            (arith, list_for_device_result cursor, job_page_last limit (rest cursor) (ground arith))
    ]

-- A client that asks for page after page of a device's jobs is shown every one of them, once, the newest
-- first, if no two of them were created in the same second, the limit is not 0, nothing fails and nothing
-- changes in between. One page more than there are jobs is enough.
pub job_pages_complete :
    (device_id : String) (limit fuel : ℕ) (c : Conn Jobs)
    → c.faults ≡ []
    → IsUnique created_at (select (is_listed device_id none) c.tables)
    → 0 < limit
    → length c.tables < fuel
    → walk device_id limit c fuel none ≡ map row_to_record (listing device_id limit c)
unfolding rest is_before
job_pages_complete device_id limit fuel c works unique pos enough =
    walk-rest device_id limit c works unique fuel (limit - 1) none (omega arith) (
      omega (
        arith,
        ap length (select_all (listing device_id limit c)),
        length-order_rows created_after (select (is_listed device_id none) c.tables),
        length-select-le (is_listed device_id none) c.tables,
      ))
    ∙ ap (map row_to_record) (select_all (listing device_id limit c))
