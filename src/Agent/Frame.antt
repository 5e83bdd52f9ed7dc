-- ===== src/Agent/Frame.antt =====
-- `parse_frame` of robot-agent/src/telemetry.rs, and its counterpart `_encode_frame` of
-- simulator/controller/robot_controller.py. A 64-bit float is its bit pattern, which neither of the two
-- looks into. Python's `struct.pack` refuses a number that its format cannot hold.
pub mod RoundTrip
pub mod Bounds
use robot_fleet.Prelude.{
  ℕ, zero, suc, ◌+◌, ◌*◌, ◌^◌, String, Bool, true, false, Option, none, some, List, [], ◌∷◌, ◌++◌,
  ◌&&◌, if◌then◌else◌, ltb, nat_eq, length, get_elem?, unwrap_or,
}
use robot_fleet.Prelude.Int.{ℤ, pos, negsuc, to_i64, to_u64, quot, rem}
use robot_fleet.Prelude.Bytes.{be_bytes, from_be_bytes, slice}

pub record JointStatus : Type 0 where
  pub name : String
  pub position_rad : ℕ
  pub torque_nm : ℕ
  pub temperature_c : ℕ

-- `sensors` and `metrics` are always empty and left out.
pub record TelemetryFrame : Type 0 where
  pub device_id : String
  pub seconds : ℤ
  pub nanos : ℤ
  pub joints : List JointStatus

abbrev pub joint_names : List String
joint_names =
    "panda_joint1" ∷ "panda_joint2" ∷ "panda_joint3" ∷ "panda_joint4" ∷ "panda_joint5"
    ∷ "panda_joint6" ∷ []

-- the bits of 35.0
abbrev pub default_temperature : ℕ
default_temperature = 0x4041_8000_0000_0000

abbrev pub joint : ℕ → ℕ → ℕ → JointStatus
joint i position torque = record {
  name = unwrap_or (get_elem? joint_names i) "unknown";
  position_rad = position;
  torque_nm = torque;
  temperature_c = default_temperature;
}

abbrev pub add_joint :
    ℕ → Option ℕ → Option ℕ → Option (List JointStatus) → Option (List JointStatus)
add_joint i (some position) (some torque) (some joints) = some (joint i position torque ∷ joints)
add_joint i (some position) (some torque) none = none
add_joint i (some position) none joints = none
add_joint i none torque joints = none

-- the loop from joint `i` on, with `rounds` joints left; `joint_count` is that of the whole frame
unfoldable pub parse_joints : ℕ → List ℕ → ℕ → ℕ → Option (List JointStatus)
parse_joints joint_count payload zero i = some []
parse_joints joint_count payload (suc rounds) i =
    let rest = parse_joints joint_count payload rounds (i + 1) in
    add_joint i (from_be_bytes 8 (slice (12 + i * 8) 8 payload))
      (from_be_bytes 8 (slice (12 + joint_count * 8 + i * 8) 8 payload)) rest

abbrev pub frame_of : String → ℤ → List JointStatus → TelemetryFrame
frame_of device_id timestamp_ns joints = record {
  device_id = device_id;
  seconds = quot timestamp_ns 1000000000;
  nanos = rem timestamp_ns 1000000000;
  joints = joints;
}

abbrev finish : String → ℕ → Option (List JointStatus) → Option TelemetryFrame
finish device_id stamp none = none
finish device_id stamp (some joints) = some (frame_of device_id (to_i64 stamp) joints)

-- the rest of the function, once the header is read
abbrev pub parse_body : String → List ℕ → Option ℕ → Option ℕ → Option TelemetryFrame
parse_body device_id payload (some stamp) (some joint_count) =
    if ltb (length payload) (12 + joint_count * 8 * 2)
    then none
    else finish device_id stamp (parse_joints joint_count payload joint_count 0)
parse_body device_id payload (some stamp) none = none
parse_body device_id payload none joint_count = none

unfoldable pub parse_frame : String → List ℕ → Option TelemetryFrame
parse_frame device_id payload =
    if ltb (length payload) 12
    then none
    else parse_body device_id payload (from_be_bytes 8 (slice 0 8 payload))
        (from_be_bytes 4 (slice 8 4 payload))

-- `struct.pack(">{n}d", …)` of bit patterns
abbrev pub doubles : List ℕ → List ℕ
doubles [] = []
doubles (x ∷ xs) = be_bytes 8 x ++ doubles xs

abbrev pub is_i64 : ℤ → Bool
is_i64 (pos n) = ltb n (2 ^ 63)
is_i64 (negsuc n) = ltb n (2 ^ 63)

unfoldable pub encode_payload : ℤ → List ℕ → List ℕ → Option (List ℕ)
encode_payload timestamp_ns positions torques =
    if is_i64 timestamp_ns
      && ltb (length positions) (2 ^ 32)
      && nat_eq (length torques) (length positions)
    then some (
        be_bytes 8 (to_u64 timestamp_ns)
        ++ (be_bytes 4 (length positions) ++ (doubles positions ++ doubles torques)))
    else none

abbrev prefixed : Option (List ℕ) → Option (List ℕ)
prefixed none = none
prefixed (some payload) =
    if ltb (length payload) (2 ^ 32) then some (be_bytes 4 (length payload) ++ payload) else none

unfoldable pub encode_frame : ℤ → List ℕ → List ℕ → Option (List ℕ)
unfolding encode_payload
encode_frame timestamp_ns positions torques =
    prefixed (encode_payload timestamp_ns positions torques)
