-- ===== src/Device/Store/Registry/Reads.antt =====
-- What the reads of the store tell of its rows: nothing of their order, and all the rest.
use mathlib.Core.List.Permᴰ
use mathlib.Core.Quot
use robot_fleet.Prelude.{
  ℕ, suc, ◌+◌, ◌≤◌, ◌≡◌, ap, ◌∙◌, sym, String, Option, none, List, [], ◌&&◌, arith, ok, length,
  take, select,
}
use robot_fleet.Sql.{Conn}
use robot_fleet.Sql.Table.{find, IsUnique}
use robot_fleet.Sql.Order.{order_rows}
use robot_fleet.Sql.Order.Ascending.{asc, order_rows-select}
use robot_fleet.Sql.Order.Pages.{select_all, length-order_rows}
use robot_fleet.Sql.Order.Permuted.{order_rows-perm, find-perm}
use robot_fleet.Device.Store.{
  DeviceRecord, Tables, id_of, serial_of, id_before, matches, is_after, page, list_devices,
  get_device, get_by_serial, count_devices,
}
use robot_fleet.Device.Store.Validity.{IsValid}
use robot_fleet.Device.Store.Paging.{page_last}
use robot_fleet.Device.Store.Registry.{Registry, listing}

abbrev pub registry_of : (t : Tables) → IsValid t → Registry
registry_of t v = Quot.mk (t.devices, v.ids, v.serials)

abbrev ordered : Tables → List DeviceRecord
ordered t = order_rows id_before t.devices

-- a page, cut from the rows in order
list_devices_ordered :
    (model status : Option String) (limit : ℕ) (cursor : Option String) (c : Conn Tables)
    → c.faults ≡ []
    → IsValid c.tables
    → (list_devices model status limit cursor c).0
      ≡ ok (
          page limit (
            take
              (suc limit)
              (select (λ r. matches model status r && is_after cursor r.id) (ordered c.tables))))
unfolding list_devices
list_devices_ordered model status limit cursor c works v = ground (
  arith,
  order_rows-select asc id_of (λ r. matches model status r && is_after cursor r.id) c.tables.devices
      v.ids,
)

find_ordered :
    (key : DeviceRecord → String) (k : String) (t u : Tables)
    → IsUnique key t.devices
    → IsUnique key u.devices
    → ordered t ≡ ordered u
    → find key k t.devices ≡ find key k u.devices
find_ordered key k t u ut uu e =
    find-perm key k (Permᴰ.symm (order_rows-perm id_before t.devices)) ut
    ∙ ap (find key k) e
    ∙ sym (find-perm key k (Permᴰ.symm (order_rows-perm id_before u.devices)) uu)

-- one page that has room for all
list_devices_all :
    (limit : ℕ) (c : Conn Tables)
    → c.faults ≡ []
    → IsValid c.tables
    → length c.tables.devices ≤ limit
    → (list_devices none none limit none c).0 ≡ ok (ordered c.tables, none)
list_devices_all limit c works v fits = ground (
  arith,
  list_devices_ordered none none limit none c works v,
  select_all (ordered c.tables),
  page_last limit (ordered c.tables),
  length-order_rows id_before c.tables.devices,
)

module _ (c d : Conn Tables) (c_works : c.faults ≡ []) (d_works : d.faults ≡ [])
    (v : IsValid c.tables) (w : IsValid d.tables) where
  reads_agree :
      ordered c.tables ≡ ordered d.tables
      → ((model status : Option String) (limit : ℕ) (cursor : Option String)
          → (list_devices model status limit cursor c).0
            ≡ (list_devices model status limit cursor d).0)
        × ((id : String) → (get_device id c).0 ≡ (get_device id d).0)
        × ((serial : String) → (get_by_serial serial c).0 ≡ (get_by_serial serial d).0)
        × ((count_devices c).0 ≡ (count_devices d).0)
  unfolding get_device get_by_serial count_devices
  reads_agree e = (
    λ model status limit cursor. ground (
      arith,
      e,
      list_devices_ordered model status limit cursor c c_works v,
      list_devices_ordered model status limit cursor d d_works w,
    ),
    λ id. ground (arith, find_ordered id_of id c.tables d.tables v.ids w.ids e),
    λ serial. ground (arith, find_ordered serial_of serial c.tables d.tables v.serials w.serials e),
    ground (
      arith,
      ap length e,
      length-order_rows id_before c.tables.devices,
      length-order_rows id_before d.tables.devices,
    ),
  )

  -- Two stores hold the same registry exactly if every page of `list_devices` is the same, and then every
  -- other read is too: by id, by serial, and the count. The keys of the tables are unique and nothing
  -- fails.
  pub same_registry :
      ((registry_of c.tables v ≡ registry_of d.tables w)
        → ((model status : Option String) (limit : ℕ) (cursor : Option String)
            → (list_devices model status limit cursor c).0
              ≡ (list_devices model status limit cursor d).0)
          × ((id : String) → (get_device id c).0 ≡ (get_device id d).0)
          × ((serial : String) → (get_by_serial serial c).0 ≡ (get_by_serial serial d).0)
          × ((count_devices c).0 ≡ (count_devices d).0))
      × (((model status : Option String) (limit : ℕ) (cursor : Option String)
            → (list_devices model status limit cursor c).0
              ≡ (list_devices model status limit cursor d).0)
          → registry_of c.tables v ≡ registry_of d.tables w)
  unfolding listing
  same_registry = (
    λ e. reads_agree (ap (λ (r : Registry). (listing r).0) e),
    λ same.
        let n = length c.tables.devices + length d.tables.devices in
        let e : ordered c.tables ≡ ordered d.tables = ground (
          arith,
          same none none n none,
          list_devices_all n c c_works v (omega arith),
          list_devices_all n d d_works w (omega arith),
        ) in
        Quot.sound (
          Permᴰ.trans (Permᴰ.symm (order_rows-perm id_before c.tables.devices))
            (rw e (order_rows-perm id_before d.tables.devices))),
  )
