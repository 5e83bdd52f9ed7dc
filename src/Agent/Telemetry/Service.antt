-- ===== src/Agent/Telemetry/Service.antt =====
-- The way of a frame from the simulator through the robot to the telemetry service and back.
use robot_fleet.Prelude.{
  ℕ, suc, ◌+◌, ◌<◌, ◌≡◌, refl, ap, ◌∙◌, String, Bool, true, some, List, [], ◌∷◌, arith, map, Result,
  ok, err, All, length,
}
use robot_fleet.Grpc.{Status}
use robot_fleet.Agent.Error.{Error, grpc}
use robot_fleet.Agent.Frame.{TelemetryFrame}
use robot_fleet.Agent.Telemetry.{read_acks}
use robot_fleet.Agent.Socket.{reader}
use robot_fleet.Agent.Socket.Delivery.{until_closed}
use robot_fleet.Agent.Socket.Simulator.{Step, IsShown, shown, written, reader-written}
use robot_fleet.Device.Telemetry as Service
use robot_fleet.Device.Telemetry.{TelemetryAck, started, serve}
use robot_fleet.Device.Telemetry.Counting.{
  IsNumbered, acknowledged, frames_before_end, acknowledgements-IsNumbered,
}

-- The frames as the service reads them, the `n`th at a moment that the clock gives.
abbrev pub arriving :
    (ℕ → ℕ) → ℕ → List TelemetryFrame → List (ℕ × Result Status Service.TelemetryFrame)
arriving clock n [] = []
arriving clock n (f ∷ fs) =
    (clock n, ok (record { device_id = f.device_id })) ∷ arriving clock (suc n) fs

module _ (show_status : Status → String) where
  -- the service's messages, newest first, as the robot reads them, oldest first
  abbrev pub read_onto :
      List (Result Error Bool) → List (Result Status TelemetryAck) → List (Result Error Bool)
  read_onto later [] = later
  read_onto later (ok a ∷ rest) = read_onto (ok a.throttle ∷ later) rest
  read_onto later (err e ∷ rest) = read_onto (err (grpc (show_status e)) ∷ later) rest

  read_acks-read_onto :
      (later : List (Result Error Bool)) (sent : List (Result Status TelemetryAck))
      → (read_acks later).1 ≡ 0
      → IsNumbered sent
      → (read_acks (read_onto later sent)).1 ≡ 0
  unfolding read_acks
  read_acks-read_onto later [] h n = h
  read_acks-read_onto later (ok a ∷ rest) h (count, calm, n) =
      read_acks-read_onto (ok a.throttle ∷ later) rest (ground (arith, h, calm)) n
  read_acks-read_onto later (err e ∷ rest) h n =
      read_acks-read_onto (err (grpc (show_status e)) ∷ later) rest refl n

  frames_before_end-arriving :
      (clock : ℕ → ℕ) (n : ℕ) (id : String) (steps : List Step)
      → frames_before_end (arriving clock n (map (shown id) steps)) ≡ length steps
  frames_before_end-arriving clock n id [] = refl
  frames_before_end-arriving clock n id (s ∷ ss) =
      ap suc (frames_before_end-arriving clock (suc n) id ss)

  until_closed_open : (sent : ℕ) (fs : List TelemetryFrame) → until_closed (λ n. true) sent fs ≡ fs
  until_closed_open sent [] = refl
  until_closed_open sent (f ∷ fs) = ap (◌∷◌ f) (until_closed_open (sent + 1) fs)

  -- Every step of the simulator is acknowledged: the robot sends one frame for each step, the service
  -- acknowledges each of them, and the robot never pauses for its acknowledgements. Neither channel
  -- closes, no frame is above one million bytes and each float is a 64-bit pattern.
  pub every_step_acknowledged :
      (id : String) (steps : List Step) (bytes : List ℕ) (clock : ℕ → ℕ) (now room : ℕ)
      → written steps ≡ some bytes
      → All IsShown steps
      → length steps < room
      → (frames : List TelemetryFrame) × ((reader id (λ n. true) (suc (length steps)) bytes 0
            ≡ some frames)
          × ((acknowledged (serve show_status (arriving clock 0 frames) (started now room)).sent
                ≡ length steps)
              × ((read_acks (
                    read_onto []
                      (serve show_status (arriving clock 0 frames) (started now room)).sent)).1
                  ≡ 0)))
  unfolding read_acks
  every_step_acknowledged id steps bytes clock now room h fit space =
      let frames = map (shown id) steps in
      let count = frames_before_end-arriving clock 0 id steps in
      let (numbered, all) =
        acknowledgements-IsNumbered show_status (arriving clock 0 frames) now room
          (omega (arith, count)) in
      (
        frames,
        (
          reader-written id (λ n. true) (suc (length steps)) steps bytes h fit (omega arith)
              ∙ ap some (until_closed_open 0 frames),
          (
            all ∙ count,
            read_acks-read_onto []
                (serve show_status (arriving clock 0 frames) (started now room)).sent refl numbered,
          ),
        ),
      )
