-- ===== src/Agent/Frame/RoundTrip.antt =====
-- What the simulator encodes is what the agent reads.
use mathlib.Core.List.{append_assoc, append-nil}
use robot_fleet.Prelude.{
  ℕ, ◌+◌, ◌*◌, ◌^◌, ◌<◌, ◌≡◌, refl, sym, ap, ◌∙◌, String, true, some, List, [], ◌∷◌, ◌++◌, arith,
  All, drop, length, length-append,
}
use robot_fleet.Prelude.Int.{ℤ, pos, negsuc, to_i64, to_u64, IsI64, to_i64-to_u64, to_u64-lt}
use robot_fleet.Prelude.Bytes.{
  be_bytes, length-be_bytes, from_be_bytes-slice, drop-append_length, drop-drop,
}
use robot_fleet.Agent.Frame.{
  JointStatus, joint, parse_joints, frame_of, parse_body, parse_frame, doubles, is_i64,
  encode_payload,
}

abbrev pub AreDoubles : List ℕ → Type 0
AreDoubles = All (λ x. x < 2 ^ 64)

-- the joints that a frame shows, from joint `i` on
abbrev pub joints_of : ℕ → List ℕ → List ℕ → List JointStatus
joints_of i [] torques = []
joints_of i (p ∷ ps) [] = []
joints_of i (p ∷ ps) (t ∷ ts) = joint i p t ∷ joints_of (i + 1) ps ts

length-doubles : (xs : List ℕ) → length (doubles xs) ≡ length xs * 8
length-doubles [] = refl
length-doubles (x ∷ xs) =
    omega (arith, length-append (be_bytes 8 x) (doubles xs), length-be_bytes 8 x, length-doubles xs)

parse_joints-doubles :
    (n i : ℕ) (payload ps ts rest₁ rest₂ : List ℕ)
    → drop (12 + i * 8) payload ≡ doubles ps ++ rest₁
    → drop (12 + n * 8 + i * 8) payload ≡ doubles ts ++ rest₂
    → length ts ≡ length ps
    → AreDoubles ps
    → AreDoubles ts
    → parse_joints n payload (length ps) i ≡ some (joints_of i ps ts)
unfolding parse_joints
parse_joints-doubles n i payload [] ts r₁ r₂ hp ht same fp ft = refl
parse_joints-doubles n i payload (p ∷ ps) [] r₁ r₂ hp ht same fp ft = absurd (omega arith)
parse_joints-doubles n i payload (p ∷ ps) (t ∷ ts) r₁ r₂ hp ht same fp ft =
    let (read_p, next_p) =
      from_be_bytes-slice 8 p (12 + i * 8) (12 + (i + 1) * 8) payload (doubles ps ++ r₁) fp.0
        (omega arith) (hp ∙ append_assoc (be_bytes 8 p) (doubles ps) r₁) in
    let (read_t, next_t) =
      from_be_bytes-slice 8 t (12 + n * 8 + i * 8) (12 + n * 8 + (i + 1) * 8) payload
        (doubles ts ++ r₂) ft.0 (omega arith) (ht ∙ append_assoc (be_bytes 8 t) (doubles ts) r₂) in
    rw (
      read_p,
      read_t,
      parse_joints-doubles n (i + 1) payload ps ts r₁ r₂ next_p next_t (omega arith) fp.1 ft.1,
    )

is_i64-IsI64 : (z : ℤ) → is_i64 z ≡ true → IsI64 z
is_i64-IsI64 (pos n) h = ground arith
is_i64-IsI64 (negsuc n) h = ground arith

parse_body-doubles :
    (id : String) (payload ps ts : List ℕ) (stamp : ℕ)
    → drop 12 payload ≡ doubles ps ++ doubles ts
    → length payload ≡ 12 + length (doubles ps ++ doubles ts)
    → length ts ≡ length ps
    → AreDoubles ps
    → AreDoubles ts
    → parse_body id payload (some stamp) (some (length ps))
      ≡ some (frame_of id (to_i64 stamp) (joints_of 0 ps ts))
parse_body-doubles id payload ps ts stamp h long same fp ft =
    let behind : drop (length ps * 8) (drop 12 payload) ≡ doubles ts =
      ap (drop (length ps * 8)) h
      ∙ drop-append_length (length ps * 8) (doubles ps) (doubles ts) (length-doubles ps) in
    let torques : 12 + length ps * 8 ≡ 12 + length ps * 8 + 0 * 8 = omega arith in
    ground (
      arith,
      parse_joints-doubles (length ps) 0 payload ps ts (doubles ts) [] h
          (sym (ap (λ k. drop k payload) torques)
            ∙ sym (drop-drop (length ps * 8) 12 payload)
            ∙ behind
            ∙ sym (append-nil (doubles ts)))
          same fp ft,
      length-append (doubles ps) (doubles ts),
      length-doubles ps,
      length-doubles ts,
    )

abbrev payload_of : ℤ → List ℕ → List ℕ → List ℕ
payload_of stamp ps ts =
    be_bytes 8 (to_u64 stamp) ++ (be_bytes 4 (length ps) ++ (doubles ps ++ doubles ts))

pub length-encode_payload :
    (stamp : ℤ) (ps ts payload : List ℕ)
    → encode_payload stamp ps ts ≡ some payload
    → length payload ≡ 12 + length ps * 16
unfolding encode_payload
length-encode_payload stamp ps ts payload h =
    let made : payload ≡ payload_of stamp ps ts = ground arith in
    let same : length ts ≡ length ps = ground arith in
    rw made (
      omega (
        arith,
        length-append (be_bytes 8 (to_u64 stamp))
            (be_bytes 4 (length ps) ++ (doubles ps ++ doubles ts)),
        length-append (be_bytes 4 (length ps)) (doubles ps ++ doubles ts),
        length-append (doubles ps) (doubles ts),
        length-be_bytes 8 (to_u64 stamp),
        length-be_bytes 4 (length ps),
        length-doubles ps,
        length-doubles ts,
      ))

-- What the simulator's encoder makes of a time stamp, positions and torques is parsed to a frame with
-- exactly these, one joint for each position and its torque, in order. Each float is a 64-bit pattern.
pub parse_frame-encode_payload :
    (id : String) (stamp : ℤ) (ps ts payload : List ℕ)
    → encode_payload stamp ps ts ≡ some payload
    → AreDoubles ps
    → AreDoubles ts
    → parse_frame id payload ≡ some (frame_of id stamp (joints_of 0 ps ts))
unfolding parse_frame encode_payload
parse_frame-encode_payload id stamp ps ts payload h fp ft =
    let made : payload ≡ payload_of stamp ps ts = ground arith in
    let fits : IsI64 stamp = is_i64-IsI64 stamp (ground arith) in
    let few : length ps < 2 ^ 32 = ground arith in
    let same : length ts ≡ length ps = ground arith in
    let body = doubles ps ++ doubles ts in
    let (stamp_read, behind) =
      from_be_bytes-slice 8 (to_u64 stamp) 0 8 payload (be_bytes 4 (length ps) ++ body)
        (to_u64-lt stamp fits) refl made in
    let (count_read, rest) = from_be_bytes-slice 4 (length ps) 8 12 payload body few refl behind in
    let long : length payload ≡ 12 + length body =
      ap length made
      ∙ omega (
        arith,
        length-append (be_bytes 8 (to_u64 stamp)) (be_bytes 4 (length ps) ++ body),
        length-append (be_bytes 4 (length ps)) body,
        length-be_bytes 8 (to_u64 stamp),
        length-be_bytes 4 (length ps),
      ) in
    ground (
      arith,
      stamp_read,
      count_read,
      parse_body-doubles id payload ps ts (to_u64 stamp) rest long same fp ft,
      to_i64-to_u64 stamp fits,
    )
