-- ===== src/Device/Heartbeat/Liveness.antt =====
-- What a stream of heartbeats is answered, and what it leaves in the registry.
use robot_fleet.Prelude.{
  ℕ, zero, suc, ◌≤◌, ◌<◌, ◌≡◌, refl, ◌∙◌, String, true, false, Option, none, some, List, [], ◌∷◌,
  arith, eq_refl, ok, err, length,
}
use mathlib.Core.Option
use robot_fleet.Grpc.{Status}
use robot_fleet.Sql.{Conn}
use robot_fleet.Sql.Table.{
  find, contains, modify, find-modify, contains-modify, count-eq-zero, modify_absent,
}
use robot_fleet.Device.Store.{DeviceRecord, Tables, id_of, seen_at, touch_last_seen}
use robot_fleet.Device.Heartbeat.{
  HeartbeatRequest, Stream, Responses, calm, unknown_device, send, respond, handle,
}

-- a stream without an error
abbrev pub pings : List (ℕ × HeartbeatRequest) → Stream
pings [] = []
pings ((t, req) ∷ ps) = (t, ok req) ∷ pings ps

abbrev pub calm_for : List (ℕ × HeartbeatRequest) → Responses
calm_for [] = []
calm_for (p ∷ ps) = ok calm ∷ calm_for ps

-- a device once the heartbeats have been seen
abbrev pub seen_by : List (ℕ × HeartbeatRequest) → Option DeviceRecord → Option DeviceRecord
seen_by [] o = o
seen_by ((t, req) ∷ []) o = Option.map (seen_at t) o
seen_by ((t, req) ∷ p ∷ ps) o = seen_by (p ∷ ps) o

abbrev touched : ℕ → String → Conn Tables → Conn Tables
touched now id c = record c {
  tables = record c.tables { devices = modify id_of id (seen_at now) c.tables.devices };
}

touch_live :
    (now : ℕ) (id : String) (c : Conn Tables)
    → c.faults ≡ []
    → contains id_of id c.tables.devices ≡ true
    → touch_last_seen now id c ≡ (ok tt, touched now id c)
unfolding touch_last_seen
touch_live now id c works known = ground (arith, count-eq-zero id_of id c.tables.devices)

seen_by-seen_at :
    (t : ℕ) (ps : List (ℕ × HeartbeatRequest)) (o : Option DeviceRecord) (req : HeartbeatRequest)
    → seen_by ps (Option.map (seen_at t) o) ≡ seen_by ((t, req) ∷ ps) o
seen_by-seen_at t [] o req = refl
seen_by-seen_at t ((s, r) ∷ []) none req = refl
seen_by-seen_at t ((s, r) ∷ []) (some d) req = refl
seen_by-seen_at t ((s, r) ∷ p ∷ ps) o req = seen_by-seen_at t (p ∷ ps) o req

respond_live :
    (id : String) (ps : List (ℕ × HeartbeatRequest)) (room : ℕ) (c : Conn Tables)
    → c.faults ≡ []
    → contains id_of id c.tables.devices ≡ true
    → length ps ≤ room
    → ((respond id (pings ps) room c).0 ≡ calm_for ps)
      × (find id_of id (respond id (pings ps) room c).1.tables.devices
          ≡ seen_by ps (find id_of id c.tables.devices))
unfolding respond
respond_live id [] room c works known fits = (refl, refl)
respond_live id ((t, req) ∷ ps) zero c works known fits = absurd (omega arith)
respond_live id ((t, req) ∷ ps) (suc room) c works known fits =
    let e = touch_live t id c works known in
    let rows = c.tables.devices in
    let later =
      respond_live id ps room (touched t id c) works
        (contains-modify id_of id_of (seen_at t) (λ r. refl) id id rows ∙ known) (omega arith) in
    ground (
      arith,
      e,
      later,
      eq_refl id,
      find-modify id_of id id (seen_at t) rows (λ r. refl),
      seen_by-seen_at t ps (find id_of id rows) req,
    )

-- A device that the store knows is answered every heartbeat, in order, and the store then shows the
-- time of the last one as the last time that the device was seen, all else about it as before. The
-- device is that of the first heartbeat, whatever the later ones say. The client takes every answer,
-- the stream has no error and no statement fails.
pub heartbeats_answered :
    (show_status : Status → String) (t : ℕ) (first : HeartbeatRequest)
    (ps : List (ℕ × HeartbeatRequest)) (room : ℕ) (c : Conn Tables)
    → c.faults ≡ []
    → contains id_of first.device_id c.tables.devices ≡ true
    → length ps < room
    → let out = handle show_status (pings ((t, first) ∷ ps)) room c in
      (out.0 ≡ calm_for ((t, first) ∷ ps))
      × (find id_of first.device_id out.1.tables.devices
          ≡ seen_by ((t, first) ∷ ps) (find id_of first.device_id c.tables.devices))
unfolding handle
heartbeats_answered show_status t first ps room c works known fits =
    respond_live first.device_id ((t, first) ∷ ps) room c works known fits

-- A device that the store does not know gets one NOT_FOUND, the stream ends there, and nothing is
-- written, if no statement fails.
pub unknown_heartbeat :
    (show_status : Status → String) (t : ℕ) (first : HeartbeatRequest) (rest : Stream) (room : ℕ)
    (c : Conn Tables)
    → c.faults ≡ []
    → contains id_of first.device_id c.tables.devices ≡ false
    → handle show_status ((t, ok first) ∷ rest) room c
      ≡ (send room (err (unknown_device first.device_id)), c)
unfolding handle respond touch_last_seen
unknown_heartbeat show_status t first rest room c works unknown = ground (
  arith,
  count-eq-zero id_of first.device_id c.tables.devices,
  modify_absent id_of first.device_id (seen_at t) c.tables.devices unknown,
)
