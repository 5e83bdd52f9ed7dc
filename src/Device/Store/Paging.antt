-- ===== src/Device/Store/Paging.antt =====
-- `list_devices`, page after page.
use robot_fleet.Prelude.{
  ℕ, zero, suc, ◌-◌, ◌≤◌, ◌<◌, ◌≡◌, ap, ◌∙◌, sym, String, Option, none, some, List, [], ◌++◌, arith,
  ◌&&◌, Result, ok, err, length, take, drop, select, ltb, take-append-drop, take_all, inl, inr,
  Bool-cases, last,
}
use mathlib.Core.Option
use robot_fleet.Sql.{Conn}
use robot_fleet.Sql.Table.{IsUnique}
use robot_fleet.Sql.Order.{order_rows}
use robot_fleet.Sql.Order.Ascending.{
  asc, IsAscending, order_rows-IsAscending, order_rows-select, IsUnique-select,
}
use robot_fleet.Sql.Order.Pages.{
  behind, select-and, select_all, drop_last-take, length-take_lt, last-take, length-drop_lt,
  select-behind-last, behind-behind, last-behind, IsAscending-select, length-select-le,
  length-order_rows,
}
use robot_fleet.Device.Error.{Error}
use robot_fleet.Device.Store.{
  DeviceRecord, Tables, id_of, id_before, matches, is_after, page, list_devices,
}

-- the two shapes of a page
page_more :
    (limit : ℕ) (xs : List DeviceRecord)
    → limit < length xs
    → page limit (take (suc limit) xs) ≡ (take limit xs, Option.map id_of (last (take limit xs)))
unfolding page
page_more limit xs h = ground (arith, length-take_lt limit xs h, drop_last-take limit xs h)

pub page_last :
    (limit : ℕ) (xs : List DeviceRecord)
    → length xs ≤ limit
    → page limit (take (suc limit) xs) ≡ (xs, none)
unfolding page
page_last limit xs h = ground (arith, take_all (suc limit) xs (omega arith))

module _ (model status : Option String) (limit : ℕ) (c : Conn Tables) where
  -- all the devices that match, by id
  abbrev pub listing : List DeviceRecord
  listing = order_rows id_before (select (matches model status) c.tables.devices)

  rest : Option String → List DeviceRecord
  rest cursor = select (λ r. is_after cursor r.id) listing

  -- A client that asks for pages until it is given no cursor, nothing changing in between.
  abbrev follow :
      (Option String → List DeviceRecord)
      → Result Error (List DeviceRecord × Option String)
      → List DeviceRecord
  follow next (err e) = []
  follow next (ok (rows, none)) = rows
  follow next (ok (rows, some cursor)) = rows ++ next (some cursor)

  pub walk : ℕ → Option String → List DeviceRecord
  walk zero cursor = []
  walk (suc fuel) cursor = follow (walk fuel) (list_devices model status limit cursor c).0

  module _ (works : c.faults ≡ []) (unique : IsUnique id_of c.tables.devices) where
    listing-IsAscending : IsAscending asc id_of listing
    listing-IsAscending = order_rows-IsAscending asc id_of _ (IsUnique-select id_of _ _ unique)

    -- SQLite filters and then orders; the same rows come of filtering the ordered ones.
    ordered-eq-rest :
        (cursor : Option String)
        → order_rows id_before
            (select (λ r. matches model status r && is_after cursor r.id) c.tables.devices)
          ≡ rest cursor
    unfolding rest
    ordered-eq-rest cursor =
        rw (select-and (matches model status) (λ r. is_after cursor r.id) c.tables.devices) (
          order_rows-select asc id_of (λ r. is_after cursor r.id)
            (select (matches model status) c.tables.devices) (IsUnique-select id_of _ _ unique))

    -- One page is cut from what lies behind the cursor.
    list_devices_result :
        (cursor : Option String)
        → (list_devices model status limit cursor c).0
          ≡ ok (page limit (take (suc limit) (rest cursor)))
    unfolding list_devices
    list_devices_result cursor = ground (arith, ordered-eq-rest cursor)

    rest-next :
        (n : ℕ) (cursor : Option String) (r : DeviceRecord)
        → last (take (suc n) (rest cursor)) ≡ some r
        → rest (some r.id) ≡ drop (suc n) (rest cursor)
    unfolding rest
    rest-next n none r h = rw (select_all listing) (
        select-behind-last asc id_of n listing r listing-IsAscending (rw (select_all listing) at h))
    rest-next n (some k) r h =
        sym (behind-behind asc id_of k r.id listing (last-behind asc id_of k n listing r h))
        ∙ select-behind-last asc id_of n (select (behind asc id_of k) listing) r
            (IsAscending-select asc id_of (behind asc id_of k) listing listing-IsAscending) h

    walk-rest :
        (fuel n : ℕ) (cursor : Option String)
        → limit ≡ suc n
        → length (rest cursor) < fuel
        → walk fuel cursor ≡ rest cursor
    unfolding walk
    walk-rest zero n cursor pos h = absurd (omega arith)
    walk-rest (suc fuel) n cursor pos h = elim (Bool-cases (ltb limit (length (rest cursor)))) [
      | inl more ↦
          let m : limit < length (rest cursor) = ground arith in
          let (r, e) = last-take n (rest cursor) (omega arith) in
          let next = rest-next n cursor r e in
          let later =
            walk-rest fuel n (some r.id) pos
              (omega (arith, length-drop_lt n (rest cursor) (omega arith), ap length next)) in
          ground (
            arith,
            list_devices_result cursor,
            page_more limit (rest cursor) m,
            later,
            next,
            e,
            take-append-drop limit (rest cursor),
          )
      | inr enough ↦
          ground (arith, list_devices_result cursor, page_last limit (rest cursor) (ground arith))
    ]

-- A client that asks for page after page, each with the cursor that the page before returned, is
-- shown every device that matches the filters, once, in the order of the ids, if the ids are unique,
-- the limit is not 0, nothing fails and nothing changes in between. One page more than there are
-- devices is enough.
pub pages_complete :
    (model status : Option String) (limit fuel : ℕ) (c : Conn Tables)
    → c.faults ≡ []
    → IsUnique id_of c.tables.devices
    → 0 < limit
    → length c.tables.devices < fuel
    → walk model status limit c fuel none
      ≡ order_rows id_before (select (matches model status) c.tables.devices)
unfolding rest
pages_complete model status limit fuel c works unique pos enough =
    walk-rest model status limit c works unique fuel (limit - 1) none (omega arith) (
      omega (
        arith,
        ap length (select_all (listing model status limit c)),
        length-order_rows id_before (select (matches model status) c.tables.devices),
        length-select-le (matches model status) c.tables.devices,
      ))
    ∙ select_all (listing model status limit c)
