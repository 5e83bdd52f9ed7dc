-- ===== src/Device/Server/Answers.antt =====
-- What the service answers.
use robot_fleet.Prelude.{◌≡◌, refl, String, Option, none, some, [], arith, Result, ok, err, eq_refl}
use mathlib.Core.Option
use robot_fleet.Grpc as Grpc
use robot_fleet.Grpc.{Status, status}
use robot_fleet.Sql.{Conn}
use robot_fleet.Sql.Table.{find, contains-is_some, count-eq-zero, find-modify}
use robot_fleet.Device.Store.{DeviceRecord, Tables, id_of, with_status, update_status}
use robot_fleet.Device.Store as Store
use robot_fleet.Device.Server.{DeviceInfo, record_to_proto, get_device, update_device_status}

abbrev pub answered : String → Option DeviceRecord → Result Status DeviceInfo
answered id none = err (status Grpc.not_found id)
answered id (some r) = ok (record_to_proto r)

-- The answer to a change of status is the device as the registry has it after the change, with the
-- new status and all else as before, and NOT_FOUND for a device that the registry does not have. A
-- lookup right after it answers the same. Nothing fails.
pub update_device_status_result :
    (id status reason : String) (c : Conn Tables)
    → c.faults ≡ []
    → let shown = answered id (Option.map (with_status status) (find id_of id c.tables.devices)) in
      let q = update_device_status id status reason c in
      (q.0 ≡ shown) × ((get_device id q.1).0 ≡ shown)
unfolding update_device_status get_device update_status Store.get_device
update_device_status_result id status reason c works =
    let rows = c.tables.devices in
    let f = find-modify id_of id id (with_status status) rows (λ r. refl) in
    let n = count-eq-zero id_of id rows in
    let k = contains-is_some id_of id rows in
    (ground (arith, f, n, k, eq_refl id), ground (arith, f, n, k, eq_refl id))
