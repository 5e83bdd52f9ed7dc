-- ===== src/Tests/RobotTests.antt =====
-- The robot's streams at concrete inputs.
use robot_fleet.Prelude.{
  ℕ, ◌≡◌, refl, String, true, some, List, [], ◌∷◌, ◌++◌, arith, length, ltb, All, false, ok, err,
}
use robot_fleet.Prelude.Int.{pos, to_u64, to_i64}
use robot_fleet.Prelude.Bytes.{be_bytes, from_digits}
use robot_fleet.Agent.Frame.{
  JointStatus, TelemetryFrame, frame_of, parse_frame, encode_frame, encode_payload,
}
use robot_fleet.Agent.Frame.Bounds.{parse_frame_total}
use robot_fleet.Agent.Socket.{reader}
use robot_fleet.Agent.Socket.Progress.{IsOwn, reader_total}
use robot_fleet.Agent.Socket.Simulator.{Step, shown, reader-written}
use robot_fleet.Agent.Telemetry.{Round, read_acks, run_telemetry}
use robot_fleet.Agent.Telemetry.Choice.{source_never_changes}
use robot_fleet.Agent.Error.{grpc}
use robot_fleet.Agent.Backoff.{reconnect}
use robot_fleet.Agent.Telemetry.Service.{arriving, read_onto, every_step_acknowledged}
use robot_fleet.Device.Telemetry.{started, serve}
use robot_fleet.Device.Telemetry.Counting.{acknowledged}

-- one joint, 1.5 seconds after the epoch
abbrev step : Step
step = record { timestamp_ns = pos 1500000000; positions = 1 ∷ []; torques = 2 ∷ [] }

abbrev payload : List ℕ
payload =
    0 ∷ 0 ∷ 0 ∷ 0 ∷ 89 ∷ 104 ∷ 47 ∷ 0 ∷ 0 ∷ 0 ∷ 0 ∷ 1 ∷ 0 ∷ 0 ∷ 0 ∷ 0 ∷ 0 ∷ 0 ∷ 0 ∷ 1 ∷ 0 ∷ 0 ∷ 0
    ∷ 0 ∷ 0 ∷ 0 ∷ 0 ∷ 2 ∷ []

abbrev frame_bytes : List ℕ
frame_bytes = 0 ∷ 0 ∷ 0 ∷ 28 ∷ payload

parse_frame_total_example :
    (joints : List JointStatus) × ((parse_frame "d1" payload
        ≡ some (frame_of "d1" (pos 1500000000) joints))
      × (length joints ≡ 1))
unfolding from_digits to_i64
parse_frame_total_example = parse_frame_total "d1" payload (omega arith)

-- a broken stream: a whole frame, and a length that no payload has
reader_total_example :
    (frames : List TelemetryFrame) × ((reader "d1"
          (λ n. ltb n 3)
          40
          (frame_bytes ++ 255 ∷ 255 ∷ 255 ∷ 255 ∷ [])
          0
        ≡ some frames)
      × All (IsOwn "d1") frames)
reader_total_example =
    reader_total "d1" (λ n. ltb n 3) 40 0 (frame_bytes ++ 255 ∷ 255 ∷ 255 ∷ 255 ∷ []) (omega arith)

reader-written_example :
    reader "d1" (λ n. true) 3 (frame_bytes ++ frame_bytes) 0
    ≡ some (shown "d1" step ∷ shown "d1" step ∷ [])
unfolding encode_frame encode_payload be_bytes to_u64
reader-written_example =
    reader-written "d1" (λ n. true) 3 (step ∷ step ∷ []) (frame_bytes ++ frame_bytes) refl
      (
        (omega arith, ((omega arith, tt), (omega arith, tt))),
        ((omega arith, ((omega arith, tt), (omega arith, tt))), tt),
      )
      (omega arith)

every_step_acknowledged_example :
    (frames : List TelemetryFrame) × ((reader "d1" (λ n. true) 2 frame_bytes 0 ≡ some frames)
      × ((acknowledged (serve (λ e. "status") (arriving (λ n. n) 0 frames) (started 0 9)).sent ≡ 1)
          × ((read_acks (
                read_onto
                  (λ e. "status")
                  []
                  (serve (λ e. "status") (arriving (λ n. n) 0 frames) (started 0 9)).sent)).1
              ≡ 0)))
unfolding encode_frame encode_payload be_bytes to_u64
every_step_acknowledged_example =
    every_step_acknowledged (λ e. "status") "d1" (step ∷ []) frame_bytes (λ n. n) 0 9 refl
      ((omega arith, ((omega arith, tt), (omega arith, tt))), tt) (omega arith)

abbrev meminfo : String
meminfo = "MemTotal: 100 kB\nMemAvailable: 40 kB\n"

-- a round in which the stream breaks, and one in which it ends
abbrev broken : Round
broken = record {
  others = λ found. found;
  removed = ok tt;
  bound = ok tt;
  from_socket = err (grpc "unavailable");
  sine_wave = err (grpc "unavailable");
}

abbrev ended : Round
ended = record broken { sine_wave = ok tt; from_socket = ok tt }

source_never_changes_example :
    run_telemetry (some "/tmp/robot_telemetry.sock") (broken ∷ broken ∷ ended ∷ []) false
    ≡ (record { returned = true; waits = 1 ∷ 2 ∷ [] }, false)
unfolding reconnect
source_never_changes_example =
    source_never_changes "/tmp/robot_telemetry.sock" false (broken ∷ broken ∷ ended ∷ [])
      (refl, (refl, (refl, tt)))
      ((refl, refl, refl), ((refl, refl, refl), ((refl, refl, refl), tt)))
