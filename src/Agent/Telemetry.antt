-- ===== src/Agent/Telemetry.antt =====
-- robot-agent/src/telemetry.rs without the reading of the socket: the choice of the source, the frames made up when
-- there is no simulator, and the loop that reads the acknowledgements. The sine and cosine are
-- parameters, a float is its bit pattern.
pub mod Sources
pub mod Choice
pub mod Service
use robot_fleet.Prelude.{
  ℕ, ◌+◌, ◌*◌, ◌/◌, ◌%◌, String, Bool, true, false, Option, none, some, List, [], ◌∷◌, Result, ok,
  err, Method, pure, lift, ◌>>=◌, ◌>>◌, if◌then◌else◌, ◌&&◌, is_some,
}
use robot_fleet.Prelude.Int.{pos, to_i64}
use robot_fleet.Agent.Error.{Error}
use robot_fleet.Agent.Backoff.{Progress, capped, waited}
use robot_fleet.Agent.Frame.{JointStatus, TelemetryFrame, joint_names, default_temperature}

-- What a round of the outer loop meets: what other programs make of the socket's path before it, whether
-- the path can be removed and bound, and what either source comes to.
pub record Round : Type 0 where
  pub others : Bool → Bool
  pub removed : Result Error (Unit {0})
  pub bound : Result Error (Unit {0})
  pub from_socket : Result Error (Unit {0})
  pub sine_wave : Result Error (Unit {0})

-- `std::fs::remove_file`; the state is whether the socket's path exists
unfoldable pub remove_file : Round → Method Bool Error (Unit {0})
remove_file r exists_path = elim r.removed [ ok u ↦ (ok tt, false) | err e ↦ (err e, exists_path) ]

-- `UnixListener::bind`
unfoldable pub bind : Round → Method Bool Error (Unit {0})
bind r exists_path = elim r.bound [ ok u ↦ (ok tt, true) | err e ↦ (err e, exists_path) ]

unfoldable pub run_from_socket : Round → Method Bool Error (Unit {0})
unfolding remove_file bind ◌>>=◌
run_from_socket r exists_path =
    (do if exists_path then remove_file r else pure tt; bind r; lift r.from_socket) exists_path

unfoldable pub streamed : Option String → Round → Method Bool Error (Unit {0})
unfolding run_from_socket
streamed socket_path r exists_path =
    if is_some socket_path && exists_path
    then run_from_socket r exists_path
    else (r.sine_wave, exists_path)

-- the outer loop, with the next wait
unfoldable pub telemetry_loop : ℕ → Option String → List Round → Bool → Progress × Bool
unfolding streamed
telemetry_loop backoff socket_path [] exists_path =
    (record { returned = false; waits = [] }, exists_path)
telemetry_loop backoff socket_path (r ∷ rest) exists_path =
    let (result, left) = streamed socket_path r (r.others exists_path) in
    elim result [
      | ok u ↦ (record { returned = true; waits = [] }, left)
      | err e ↦
          let (later, at_end) = telemetry_loop (capped (backoff * 2)) socket_path rest left in
          (waited backoff later, at_end)
    ]

abbrev pub run_telemetry : Option String → List Round → Bool → Progress × Bool
run_telemetry = telemetry_loop 1

-- position and torque of a joint
abbrev pub Wave : Type 0
Wave = ℕ → ℕ × ℕ

abbrev pub sine_joints : Wave → ℕ → List String → List JointStatus
sine_joints wave i [] = []
sine_joints wave i (name ∷ names) =
    record {
      name = name;
      position_rad = (wave i).0;
      torque_nm = (wave i).1;
      temperature_c = default_temperature;
    }
    ∷ sine_joints wave (i + 1) names

-- the frame of one moment; `now` is in nanoseconds from the epoch
abbrev pub sine_frame : String → ℕ → Wave → TelemetryFrame
sine_frame device_id now wave = record {
  device_id = device_id;
  seconds = to_i64 (now / 1000000000);
  nanos = pos (now % 1000000000);
  joints = sine_joints wave 0 joint_names;
}

-- the `throttle` of each acknowledgement; the milliseconds slept come with the result
unfoldable pub read_acks : List (Result Error Bool) → Result Error (Unit {0}) × ℕ
read_acks [] = (ok tt, 0)
read_acks (err e ∷ rest) = (err e, 0)
read_acks (ok throttle ∷ rest) =
    let (result, slept) = read_acks rest in (result, if throttle then 500 + slept else slept)
