-- ===== src/Agent/Socket/Delivery.antt =====
-- What is sent for a stream of whole frames, and for what the simulator writes.
use mathlib.Core.List.{append_assoc}
use robot_fleet.Prelude.{
  ℕ, zero, suc, ◌+◌, ◌≤◌, ◌<◌, ◌≡◌, refl, String, Bool, Option, none, some, List, [], ◌∷◌, ◌++◌,
  arith, All, length, length-append, if◌then◌else◌,
}
use robot_fleet.Prelude.Bytes.{
  be_bytes, length-be_bytes, from_digits-be_bytes, drop-append_length, take-append_length,
}
use robot_fleet.Agent.Frame.{TelemetryFrame, parse_frame}
use robot_fleet.Agent.Socket.{closed, parsed, read_exact, read_round, reader, max_payload}

abbrev pub framed : List ℕ → List ℕ
framed payload = be_bytes 4 (length payload) ++ payload

abbrev pub IsPayload : List ℕ → Type 0
IsPayload payload = (0 < length payload) × (length payload ≤ max_payload)

abbrev pub stream_of : List (List ℕ) → List ℕ
stream_of [] = []
stream_of (p ∷ ps) = framed p ++ stream_of ps

abbrev pub joined : Option TelemetryFrame → List TelemetryFrame → List TelemetryFrame
joined none fs = fs
joined (some f) fs = f ∷ fs

-- the frames of the payloads that are parsed
abbrev pub frames_of : String → List (List ℕ) → List TelemetryFrame
frames_of id [] = []
frames_of id (p ∷ ps) = joined (parse_frame id p) (frames_of id ps)

-- the frames before the channel is closed
abbrev pub until_closed : (ℕ → Bool) → ℕ → List TelemetryFrame → List TelemetryFrame
until_closed is_open sent [] = []
until_closed is_open sent (f ∷ fs) =
    let rest = until_closed is_open (sent + 1) fs in if is_open sent then f ∷ rest else []

read_exact-append :
    (n : ℕ) (xs ys : List ℕ) → length xs ≡ n → read_exact n (xs ++ ys) ≡ some (xs, ys)
read_exact-append n xs ys h =
    ground (arith, length-append xs ys, take-append_length n xs ys h, drop-append_length n xs ys h)

read_round-framed :
    (id : String) (payload rest : List ℕ)
    → IsPayload payload
    → read_round id (framed payload ++ rest) ≡ parsed rest (parse_frame id payload)
unfolding read_round
read_round-framed id payload rest (some_bytes, few) =
    let size = length payload in
    rw
      (
        append_assoc (be_bytes 4 size) payload rest,
        read_exact-append 4 (be_bytes 4 size) (payload ++ rest) (length-be_bytes 4 size),
      )
      (ground (
        arith,
        from_digits-be_bytes 4 size (omega arith),
        read_exact-append size payload rest refl,
      ))

-- A stream of whole frames and of bytes that end the loop: the frames whose payload is parsed are sent,
-- in order, up to the close of the channel; the others are skipped. A unit of fuel for each frame and
-- one more are enough.
pub reader-stream_of :
    (id : String) (is_open : ℕ → Bool) (fuel sent : ℕ) (payloads : List (List ℕ)) (rest : List ℕ)
    → All IsPayload payloads
    → read_round id rest ≡ closed
    → length payloads < fuel
    → reader id is_open fuel (stream_of payloads ++ rest) sent
      ≡ some (until_closed is_open sent (frames_of id payloads))
unfolding reader
reader-stream_of id is_open zero sent payloads rest fit last h = absurd (omega arith)
reader-stream_of id is_open (suc fuel) sent [] rest fit last h = rw last refl
reader-stream_of id is_open (suc fuel) sent (p ∷ ps) rest fit last h =
    rw
      (
        append_assoc (framed p) (stream_of ps) rest,
        read_round-framed id p (stream_of ps ++ rest) fit.0,
      )
      (ground (
        arith,
        reader-stream_of id is_open fuel sent ps rest fit.1 last (omega arith),
        reader-stream_of id is_open fuel (sent + 1) ps rest fit.1 last (omega arith),
      ))
