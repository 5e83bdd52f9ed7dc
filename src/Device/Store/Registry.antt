-- ===== src/Device/Store/Registry.antt =====
-- The devices as clients see them: the rows without the order in which they were stored.
pub mod Reads
use mathlib.Core.List.{Permᴰ}
use mathlib.Core.List.Permᴰ
use mathlib.Core.Quot
use mathlib.Core.Quot.{Quot, Quot-set}
use mathlib.Core.HLevel.{Σ_prop_path, hedberg}
use mathlib.Core.Bool.{Bool-set}
use native.Mathlib.Nat.{ℕ_set}
use robot_fleet.Prelude.{
  ℕ, suc, ◌+◌, ◌≤◌, ◌≡◌, refl, ap, ◌∙◌, sym, String, Option, none, some, List, [], ◌∷◌, arith, ok,
  length, take, select, ◌==◌, eq_iff, Bool-cases, inl, inr,
}
use robot_fleet.Sql.{Conn}
use robot_fleet.Sql.Table.{find, contains, IsUnique}
use robot_fleet.Sql.Order.{order_rows}
use robot_fleet.Sql.Order.Ascending.{asc, order_rows-select, IsUnique-select}
use robot_fleet.Sql.Order.Permuted.{
  order_rows-perm, IsUnique-perm, find-perm, order_rows-eq_of_perm,
}
use robot_fleet.Device.Store.{
  DeviceRecord, Tables, id_of, serial_of, id_before, matches, is_after, page, list_devices,
  get_device, get_by_serial, count_devices,
}

-- rows that the keys of the table tell apart
abbrev pub Rows : Type 0
Rows = (rs : List DeviceRecord) × IsUnique id_of rs × IsUnique serial_of rs

abbrev pub IsReordered : Rows → Rows → Type 0
IsReordered a b = Permᴰ a.0 b.0

abbrev pub Registry : Type 0
Registry = Quot IsReordered

-- such rows in the order of ORDER BY id
pub record IsListing (rs : List DeviceRecord) : Type 0 where
  pub ids : IsUnique id_of rs
  pub serials : IsUnique serial_of rs
  pub ordered : order_rows id_before rs ≡ rs

abbrev pub Listing : Type 0
Listing = (rs : List DeviceRecord) × IsListing rs

String-discrete : Discrete String
String-discrete s t = elim (Bool-cases (s == t)) [
  | inl same ↦ yes ((eq_iff s t).0 same)
  | inr other ↦ no (λ e. absurd (ground (arith, eq_iff s t, e)))
]

String-set : IsSet String
String-set = hedberg String-discrete

DeviceRecord-set : IsSet DeviceRecord
DeviceRecord-set = hlevel (String-set, ℕ_set)

rows_set : IsSet (List DeviceRecord)
rows_set = hlevel DeviceRecord-set

IsUnique-prop : (key : DeviceRecord → String) (rs : List DeviceRecord) → IsProp (IsUnique key rs)
IsUnique-prop key [] = hlevel
IsUnique-prop key (r ∷ rs) = hlevel (Bool-set, IsUnique-prop key rs)

IsListing-prop : (rs : List DeviceRecord) → IsProp (IsListing rs)
IsListing-prop rs = hlevel (IsUnique-prop id_of rs, IsUnique-prop serial_of rs, rows_set)

Listing-set : IsSet Listing
Listing-set = hlevel (rows_set, IsListing-prop)

listing_of : Rows → Listing
listing_of (rs, ids, serials) =
    let back = Permᴰ.symm (order_rows-perm id_before rs) in
    (
      order_rows id_before rs,
      record {
        ids = IsUnique-perm id_of back ids;
        serials = IsUnique-perm serial_of back serials;
        ordered = sym (order_rows-eq_of_perm asc id_of back ids);
      },
    )

listing_of-reordered : (a b : Rows) → IsReordered a b → listing_of a ≡ listing_of b
unfolding listing_of
listing_of-reordered a b p = Σ_prop_path IsListing-prop (order_rows-eq_of_perm asc id_of p a.1)

pub listing : Registry → Listing
unfolding listing_of
listing = Quot.lift Listing-set listing_of listing_of-reordered
