-- ===== src/Agent/Socket/Simulator.antt =====
-- The simulator's steps (`on_physics_step` of simulator/controller/robot_controller.py) as the agent sees
-- them.
use mathlib.Core.List.{append-nil}
use robot_fleet.Prelude.{
  ℕ, suc, ◌+◌, ◌*◌, ◌≤◌, ◌<◌, ◌≡◌, refl, ap, String, Bool, Option, none, some, List, [], ◌∷◌, ◌++◌,
  arith, All, length, map, Option-cases, inl, inr,
}
use robot_fleet.Prelude.Int.{ℤ}
use robot_fleet.Agent.Frame.{TelemetryFrame, frame_of, encode_payload, encode_frame}
use robot_fleet.Agent.Frame.RoundTrip.{
  AreDoubles, joints_of, length-encode_payload, parse_frame-encode_payload,
}
use robot_fleet.Agent.Socket.{read_round, reader, max_payload}
use robot_fleet.Agent.Socket.Delivery.{
  framed, IsPayload, stream_of, frames_of, until_closed, reader-stream_of,
}

-- what one step of the simulator reads: the time and the joints' positions and torques
pub record Step : Type 0 where
  pub timestamp_ns : ℤ
  pub positions : List ℕ
  pub torques : List ℕ

abbrev sent_first : Option (List ℕ) → Option (List ℕ) → Option (List ℕ)
sent_first none rest = none
sent_first (some frame) none = none
sent_first (some frame) (some rest) = some (frame ++ rest)

-- the bytes that the simulator writes, unless a step cannot be encoded
abbrev pub written : List Step → Option (List ℕ)
written [] = some []
written (s ∷ ss) = sent_first (encode_frame s.timestamp_ns s.positions s.torques) (written ss)

-- a frame of at most one million bytes, which is up to 62499 joints
abbrev pub IsShown : Step → Type 0
IsShown s =
    (12 + length s.positions * 16 ≤ max_payload) × (AreDoubles s.positions × AreDoubles s.torques)

abbrev pub shown : String → Step → TelemetryFrame
shown id s = frame_of id s.timestamp_ns (joints_of 0 s.positions s.torques)

encode_frame-framed :
    (stamp : ℤ) (ps ts bytes : List ℕ)
    → encode_frame stamp ps ts ≡ some bytes
    → (payload : List ℕ) × ((encode_payload stamp ps ts ≡ some payload) × (bytes ≡ framed payload))
unfolding encode_frame
encode_frame-framed stamp ps ts bytes h = elim (Option-cases (encode_payload stamp ps ts)) [
  | inl e ↦ absurd (ground (arith, e))
  | inr (payload, e) ↦ (payload, (e, ground (arith, e)))
]

sent_first-some :
    (first rest : Option (List ℕ)) (bytes : List ℕ)
    → sent_first first rest ≡ some bytes
    → (frame tail : List ℕ) × ((first ≡ some frame)
        × ((rest ≡ some tail) × (bytes ≡ frame ++ tail)))
sent_first-some none rest bytes h = absurd (ground arith)
sent_first-some (some frame) none bytes h = absurd (ground arith)
sent_first-some (some frame) (some tail) bytes h = (frame, tail, (refl, (refl, ground arith)))

-- the payloads of the steps
abbrev Payloads : String → List Step → List ℕ → List (List ℕ) → Type 0
Payloads id steps bytes ps =
    (bytes ≡ stream_of ps)
    × (All IsPayload ps × ((length ps ≡ length steps) × (frames_of id ps ≡ map (shown id) steps)))

written-Payloads :
    (id : String) (steps : List Step) (bytes : List ℕ)
    → written steps ≡ some bytes
    → All IsShown steps
    → (ps : List (List ℕ)) × Payloads id steps bytes ps
written-Payloads id [] bytes h fit = ([], (ground arith, (tt, (refl, refl))))
written-Payloads id (s ∷ ss) bytes h ((few, (positions, torques)), fit) =
    let (frame, tail, (first, (rest, all))) =
      sent_first-some (encode_frame s.timestamp_ns s.positions s.torques) (written ss) bytes h in
    let (p, (made, whole)) = encode_frame-framed s.timestamp_ns s.positions s.torques frame first in
    let (ps, (tails, (fits, (count, seen)))) = written-Payloads id ss tail rest fit in
    let long = length-encode_payload s.timestamp_ns s.positions s.torques p made in
    let read =
      parse_frame-encode_payload id s.timestamp_ns s.positions s.torques p made positions torques in
    (
      p ∷ ps,
      (
        rw (all, whole, tails) refl,
        (((omega (arith, long), omega (arith, long)), fits), (ap suc count, rw (read, seen) refl)),
      ),
    )

-- What the simulator writes, step after step, reaches the channel: a frame for each step with its time,
-- positions and torques, in order, up to the close of the channel. A unit of fuel for each step and one
-- more are enough. Each float is a 64-bit pattern, and no frame is above one million bytes.
pub reader-written :
    (id : String) (is_open : ℕ → Bool) (fuel : ℕ) (steps : List Step) (bytes : List ℕ)
    → written steps ≡ some bytes
    → All IsShown steps
    → length steps < fuel
    → reader id is_open fuel bytes 0 ≡ some (until_closed is_open 0 (map (shown id) steps))
unfolding read_round
reader-written id is_open fuel steps bytes h fit enough =
    let (ps, (all, (fits, (count, seen)))) = written-Payloads id steps bytes h fit in
    rw (all, ← append-nil (stream_of ps), ← seen)
      (reader-stream_of id is_open fuel 0 ps [] fits (ground arith) (omega arith))
