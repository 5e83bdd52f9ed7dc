-- ===== src/Agent/Telemetry/Choice.antt =====
-- Which source of frames the loop of robot-agent/src/telemetry.rs comes to, over all of its rounds.
use robot_fleet.Prelude.{
  ℕ, ◌*◌, ◌≡◌, refl, String, Bool, true, false, Option, some, List, [], ◌∷◌, map, arith, All, is_ok,
  if◌then◌else◌,
}
use robot_fleet.Agent.Backoff.{capped, reconnect, run}
use robot_fleet.Agent.Telemetry.{
  Round, remove_file, bind, run_from_socket, streamed, telemetry_loop, run_telemetry,
}

-- no other program creates the path
abbrev pub IsAlone : Round → Type 0
IsAlone r = r.others false ≡ false

-- no other program removes the path, and the robot can bind it anew
abbrev pub IsBindable : Round → Type 0
IsBindable r = (r.others true ≡ true) × (is_ok r.removed ≡ true) × (is_ok r.bound ≡ true)

sine_waves :
    (b : ℕ) (socket_path : Option String) (rounds : List Round)
    → All IsAlone rounds
    → telemetry_loop b socket_path rounds false
      ≡ (reconnect b (map (λ r. r.sine_wave) rounds), false)
unfolding telemetry_loop streamed reconnect
sine_waves b socket_path [] alone = refl
sine_waves b socket_path (r ∷ rest) (alone, later) =
    ground (arith, sine_waves (capped (b * 2)) socket_path rest later)

socket_round :
    (path : String) (r : Round)
    → IsBindable r
    → streamed (some path) r (r.others true) ≡ (r.from_socket, true)
unfolding streamed run_from_socket remove_file bind
socket_round path r (kept, removed, bound) = ground arith

sockets :
    (b : ℕ) (path : String) (rounds : List Round)
    → All IsBindable rounds
    → telemetry_loop b (some path) rounds true
      ≡ (reconnect b (map (λ r. r.from_socket) rounds), true)
unfolding telemetry_loop reconnect
sockets b path [] h = refl
sockets b path (r ∷ rest) (h, later) =
    ground (arith, socket_round path r h, sockets (capped (b * 2)) path rest later)

-- The loop never changes its source: the robot is the one that creates the socket's path, but it looks for
-- the path first. If nothing is at the path when the loop starts, the robot sends made-up frames in
-- every round and never comes to listen for the simulator, although the path is set; if there is
-- something at it, the robot listens in every round. Other programs neither create nor remove the
-- path, and the robot could remove and bind it in every round.
pub source_never_changes :
    (path : String) (exists_path : Bool) (rounds : List Round)
    → All IsAlone rounds
    → All IsBindable rounds
    → run_telemetry (some path) rounds exists_path
      ≡ (run (map (λ r. if exists_path then r.from_socket else r.sine_wave) rounds), exists_path)
source_never_changes path true rounds alone bindable = sockets 1 path rounds bindable
source_never_changes path false rounds alone bindable = sine_waves 1 (some path) rounds alone
