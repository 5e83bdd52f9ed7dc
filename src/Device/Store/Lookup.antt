-- ===== src/Device/Store/Lookup.antt =====
-- What the store returns for a device after it was created, updated or seen.
use robot_fleet.Prelude.{
  ℕ, ◌≡◌, refl, String, Option, none, some, [], ◌||◌, arith, eq_iff, eq_refl, ◌==◌, if◌then◌else◌,
  Result, ok, err,
}
use robot_fleet.Sql.{Conn}
use robot_fleet.Sql.Table.{
  find, contains, find-append, find-modify, contains-is_some, count-eq-zero,
}
use robot_fleet.Device.Error.{Error, already_enrolled, not_found}
use robot_fleet.Device.Store.{
  NewDevice, DeviceRecord, Tables, id_of, serial_of, new_record, with_status, seen_at,
  create_device, get_device, get_by_serial, update_status, touch_last_seen,
}

-- what a lookup answers
abbrev pub found : String → Option DeviceRecord → Result Error DeviceRecord
found k none = err (not_found k)
found k (some r) = ok r

abbrev pub on_ok :
    (DeviceRecord → DeviceRecord) → Result Error DeviceRecord → Result Error DeviceRecord
on_ok f (ok r) = ok (f r)
on_ok f (err e) = err e

module _ (c : Conn Tables) (works : c.faults ≡ []) where
  get_device_result :
      (id : String) → (get_device id c).0 ≡ found id (find id_of id c.tables.devices)
  unfolding get_device
  get_device_result id = ground arith

  -- A device is admitted exactly if neither its id nor its serial is taken.
  pub create_device_result :
      (id : String) (now : ℕ) (d : NewDevice)
      → (create_device id now d c).0 ≡ (
          if contains id_of id c.tables.devices || contains serial_of d.serial c.tables.devices
          then err (already_enrolled d.serial)
          else ok (new_record id now d))
  unfolding create_device
  create_device_result id now d = ground arith

  -- After a device was created, its id and its serial find the record that was returned, and every
  -- other id finds what it found before, if nothing fails.
  pub get_device-create_device :
      (id j : String) (now : ℕ) (d : NewDevice) (r : DeviceRecord)
      → (create_device id now d c).0 ≡ ok r
      → ((get_device j (create_device id now d c).1).0
          ≡ (if id == j then ok r else (get_device j c).0))
        × ((get_by_serial d.serial (create_device id now d c).1).0 ≡ ok r)
  unfolding create_device get_device get_by_serial
  get_device-create_device id j now d r h = (
    ground (
      arith,
      eq_iff id j,
      find-append id_of j (new_record id now d) c.tables.devices,
      contains-is_some id_of j c.tables.devices,
    ),
    ground (
      arith,
      eq_refl d.serial,
      find-append serial_of d.serial (new_record id now d) c.tables.devices,
      contains-is_some serial_of d.serial c.tables.devices,
    ),
  )

  -- A change of status is seen at its device and at no other, and fails exactly if there is none, as
  -- long as no statement fails.
  pub get_device-update_status :
      (id j status reason : String)
      → ((get_device j (update_status id status reason c).1).0
          ≡ (if id == j then on_ok (with_status status) (get_device j c).0 else (get_device j c).0))
        × ((update_status id status reason c).0
            ≡ (if contains id_of id c.tables.devices then ok tt else err (not_found id)))
  unfolding update_status get_device
  get_device-update_status id j status reason = (
    ground (
      arith,
      count-eq-zero id_of id c.tables.devices,
      find-modify id_of id j (with_status status) c.tables.devices (λ r. refl),
    ),
    ground (arith, count-eq-zero id_of id c.tables.devices),
  )

  -- A heartbeat changes the last time seen of its device, and nothing else.
  pub get_device-touch_last_seen :
      (id j : String) (now : ℕ)
      → ((get_device j (touch_last_seen now id c).1).0
          ≡ (if id == j then on_ok (seen_at now) (get_device j c).0 else (get_device j c).0))
        × ((touch_last_seen now id c).0
            ≡ (if contains id_of id c.tables.devices then ok tt else err (not_found id)))
  unfolding touch_last_seen get_device
  get_device-touch_last_seen id j now = (
    ground (
      arith,
      count-eq-zero id_of id c.tables.devices,
      find-modify id_of id j (seen_at now) c.tables.devices (λ r. refl),
    ),
    ground (arith, count-eq-zero id_of id c.tables.devices),
  )
