-- ===== src/Device/Telemetry.antt =====
-- device-management-service/src/telemetry.rs: the handler of one telemetry stream. An item of the
-- stream comes with the clock's reading in milliseconds, and `room` is how many acknowledgements the
-- client takes. Of a frame only the device's id is read. `show_status` is tonic's `to_string`.
pub mod Counting
use robot_fleet.Prelude.{
  ℕ, ◌+◌, ◌-◌, String, Bool, false, List, [], ◌∷◌, Result, ok, err, leb, ltb, if◌then◌else◌,
}
use robot_fleet.Grpc.{Status, status, internal}

pub record TelemetryFrame : Type 0 where
  pub device_id : String

pub record TelemetryAck : Type 0 where
  pub frames_received : ℕ
  pub throttle : Bool

-- a line that the handler logs: device, frames in the window, frames in total
pub record LogLine : Type 0 where
  pub device_id : String
  pub frames_in_window : ℕ
  pub frames_total : ℕ

abbrev pub log_interval : ℕ
log_interval = 5000

-- the variables of the loop, what was sent and what was logged
pub record Session : Type 0 where
  pub frames_received : ℕ
  pub frames_in_window : ℕ
  pub last_log : ℕ
  pub device_id : String
  pub room : ℕ
  pub sent : List (Result Status TelemetryAck)
  pub logged : List LogLine

abbrev pub started : ℕ → ℕ → Session
started now room = record {
  frames_received = 0;
  frames_in_window = 0;
  last_log = now;
  device_id = "";
  room = room;
  sent = [];
  logged = [];
}

abbrev pub log_line : Session → LogLine
log_line s = record {
  device_id = s.device_id;
  frames_in_window = s.frames_in_window;
  frames_total = s.frames_received;
}

-- a frame is counted, and the window is logged once it is long enough
abbrev pub counted : ℕ → TelemetryFrame → Session → Session
counted now frame s = record s {
  frames_received = s.frames_received + 1;
  frames_in_window = s.frames_in_window + 1;
  device_id = frame.device_id;
}

abbrev pub window : ℕ → Session → Session
window now s =
    if leb log_interval (now - s.last_log)
    then record s { frames_in_window = 0; last_log = now; logged = log_line s ∷ s.logged }
    else s

abbrev pub ack : Session → Result Status TelemetryAck
ack s = ok (record { frames_received = s.frames_received; throttle = false })

-- `tx.send`, newest first; the client's end is gone once `room` is 0
abbrev pub push : Result Status TelemetryAck → Session → Session
push r s = record s { room = s.room - 1; sent = r ∷ s.sent }

unfoldable pub serve :
    (Status → String) → List (ℕ × Result Status TelemetryFrame) → Session → Session
serve show_status [] s = s
serve show_status ((now, err e) ∷ rest) s =
    if ltb 0 s.room then push (err (status internal (show_status e))) s else s
serve show_status ((now, ok frame) ∷ rest) s =
    let t = window now (counted now frame s) in
    let later = serve show_status rest (push (ack t) t) in if ltb 0 s.room then later else t

-- the line behind the loop
unfoldable pub ended : Session → Session
ended s = if ltb 0 s.frames_in_window then record s { logged = log_line s ∷ s.logged } else s
