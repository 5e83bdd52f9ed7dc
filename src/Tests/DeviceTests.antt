-- ===== src/Tests/DeviceTests.antt =====
-- The streams of the device service and its answers at concrete inputs.
use robot_fleet.Prelude.{ℕ, String, List, [], ◌∷◌, Result, ok, err}
use robot_fleet.Grpc.{Status, status, internal}
use robot_fleet.Device.Heartbeat.{HeartbeatRequest}
use robot_fleet.Device.Telemetry.{TelemetryFrame}

abbrev show : Status → String
show s = s.message

abbrev ping : String → HeartbeatRequest
ping id = record { device_id = id }

abbrev frames : List (ℕ × Result Status TelemetryFrame)
frames =
    (100, ok (record { device_id = "d9" }))
    ∷ (6000, ok (record { device_id = "d9" }))
    ∷ (6100, err (status internal "reset"))
    ∷ []
