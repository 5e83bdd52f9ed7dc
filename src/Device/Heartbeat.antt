-- ===== src/Device/Heartbeat.antt =====
-- device-management-service/src/heartbeat/mod.rs: the handler of one heartbeat stream. The stream is
-- the list of what it yields, each item with the clock's reading when it is handled. `room` is how many
-- responses the client takes before it drops its end of the channel: a `send` after that fails. The
-- measured percentages of a request are only logged and are left out. `show_status` is tonic's
-- `to_string` of a status.
pub mod Liveness
use robot_fleet.Prelude.{
  ℕ, zero, suc, ◌-◌, String, Bool, false, List, [], ◌∷◌, Result, ok, err, Method,
}
use robot_fleet.Prelude.Text.{format}
use robot_fleet.Grpc as Grpc
use robot_fleet.Grpc.{Status, status, internal}
use robot_fleet.Sql.{Conn}
use robot_fleet.Device.Error.{Error, not_found}
use robot_fleet.Device.Store.{Tables, touch_last_seen}

pub record HeartbeatRequest : Type 0 where
  pub device_id : String

pub record HeartbeatResponse : Type 0 where
  pub throttle : Bool
  pub directive : String

abbrev pub Stream : Type 0
Stream = List (ℕ × Result Status HeartbeatRequest)

abbrev pub Responses : Type 0
Responses = List (Result Status HeartbeatResponse)

abbrev pub calm : HeartbeatResponse
calm = record { throttle = false; directive = "" }

abbrev pub unknown_device : String → Status
unknown_device id = status Grpc.not_found (format ("device " ∷ id ∷ " not found" ∷ []))

-- `tx.send`
abbrev pub send : ℕ → Result Status HeartbeatResponse → Responses
send zero r = []
send (suc room) r = r ∷ []

-- the rest of the loop's body, behind `touch_last_seen`; `later` is what the next rounds do
abbrev pub answer :
    String
    → Result Error (Unit {0})
    → ℕ
    → Conn Tables
    → Responses × Conn Tables
    → Responses × Conn Tables
answer id (err (not_found m)) room c later = (send room (err (unknown_device id)), c)
answer id r zero c later = ([], c)
answer id r (suc room) c later = let (out, d) = later in (ok calm ∷ out, d)

-- the loop
unfoldable pub respond : String → Stream → ℕ → Conn Tables → Responses × Conn Tables
respond id [] room c = ([], c)
respond id ((now, err e) ∷ rest) room c = ([], c)
respond id ((now, ok req) ∷ rest) room c =
    let touched = touch_last_seen now id c in
    let later = respond id rest (room - 1) touched.1 in answer id touched.0 room touched.1 later

unfoldable pub handle : (Status → String) → Stream → ℕ → Conn Tables → Responses × Conn Tables
unfolding respond
handle show_status [] room c = ([], c)
handle show_status ((now, err e) ∷ rest) room c =
    (send room (err (status internal (show_status e))), c)
handle show_status ((now, ok first) ∷ rest) room c =
    respond first.device_id ((now, ok first) ∷ rest) room c
