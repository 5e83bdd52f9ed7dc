-- ===== src/Agent/Frame/Bounds.antt =====
-- Which payloads are read, and what a frame that is read holds.
use robot_fleet.Prelude.{
  ℕ, zero, suc, ◌+◌, ◌*◌, ◌≤◌, ◌<◌, ◌≡◌, refl, ap, ◌∙◌, dec_lt, String, none, some, List, [], ◌∷◌,
  arith, length,
}
use robot_fleet.Prelude.Int.{to_i64}
use robot_fleet.Prelude.Bytes.{from_be_bytes, from_digits, slice, length-slice}
use robot_fleet.Agent.Frame.{
  JointStatus, TelemetryFrame, joint, parse_joints, parse_body, parse_frame, frame_of,
}

-- the number of `w` bytes that stands at some place
abbrev read_at : ℕ → ℕ → List ℕ → ℕ
read_at w at bytes = from_digits 0 (slice at w bytes)

from_be_bytes_total :
    (w at : ℕ) (bytes : List ℕ)
    → at + w ≤ length bytes
    → from_be_bytes w (slice at w bytes) ≡ some (read_at w at bytes)
unfolding from_be_bytes
from_be_bytes_total w at bytes h = ground (arith, length-slice w at bytes h)

-- In a payload that is long enough every joint is there.
parse_joints_total :
    (n rounds i : ℕ) (payload : List ℕ)
    → i + rounds ≡ n
    → 12 + n * 8 * 2 ≤ length payload
    → (joints : List JointStatus) × ((parse_joints n payload rounds i ≡ some joints)
        × (length joints ≡ rounds))
unfolding parse_joints
parse_joints_total n zero i payload e h = ([], (refl, refl))
parse_joints_total n (suc rounds) i payload e h =
    let (joints, (read, long)) = parse_joints_total n rounds (i + 1) payload (omega arith) h in
    let position = from_be_bytes_total 8 (12 + i * 8) payload (omega arith) in
    let torque = from_be_bytes_total 8 (12 + n * 8 + i * 8) payload (omega arith) in
    (
      joint i (read_at 8 (12 + i * 8) payload) (read_at 8 (12 + n * 8 + i * 8) payload) ∷ joints,
      (rw (position, torque, read) refl, ap suc long),
    )

-- the number of joints that the header announces
abbrev pub announced : List ℕ → ℕ
announced payload = read_at 4 8 payload

abbrev pub stamp : List ℕ → ℕ
stamp payload = read_at 8 0 payload

abbrev pub needed : ℕ → ℕ
needed joint_count = 12 + joint_count * 16

parse_frame_header :
    (id : String) (payload : List ℕ)
    → 12 ≤ length payload
    → parse_frame id payload
      ≡ parse_body id payload (some (stamp payload)) (some (announced payload))
unfolding parse_frame
parse_frame_header id payload h = ground (
  arith,
  from_be_bytes_total 8 0 payload (omega arith),
  from_be_bytes_total 4 8 payload (omega arith),
)

-- A payload with room for all the joints that its header announces is read, to that many joints; any
-- bytes behind them are ignored.
pub parse_frame_total :
    (id : String) (payload : List ℕ)
    → needed (announced payload) ≤ length payload
    → (joints : List JointStatus) × ((parse_frame id payload
          ≡ some (frame_of id (to_i64 (stamp payload)) joints))
        × (length joints ≡ announced payload))
parse_frame_total id payload h =
    let n = announced payload in
    let (joints, (read, long)) = parse_joints_total n n 0 payload (omega arith) (omega arith) in
    (joints, (parse_frame_header id payload (omega arith) ∙ ground (arith, read), long))

-- A payload that is too short for them, or for the header itself, is refused.
pub parse_frame_short :
    (id : String) (payload : List ℕ)
    → length payload < needed (announced payload)
    → parse_frame id payload ≡ none
parse_frame_short id payload h = elim (dec_lt (length payload) 12) [
  | yes short ↦ unfold parse_frame in ground arith
  | no long ↦ parse_frame_header id payload (omega arith) ∙ ground arith
]

-- A frame that is read is of the robot that reads it, and its joints fit into the payload.
pub parse_frame_bounds :
    (id : String) (payload : List ℕ) (frame : TelemetryFrame)
    → parse_frame id payload ≡ some frame
    → (frame.device_id ≡ id) × (needed (length frame.joints) ≤ length payload)
parse_frame_bounds id payload frame h =
    elim (dec_lt (length payload) (needed (announced payload))) [
      | yes short ↦ absurd (ground (arith, parse_frame_short id payload short))
      | no long ↦
          let (joints, (read, count)) = parse_frame_total id payload (omega arith) in
          let made : frame ≡ frame_of id (to_i64 (stamp payload)) joints = ground (arith, read) in
          (ap (λ f. f.device_id) made, rw made (omega (arith, count)))
    ]
