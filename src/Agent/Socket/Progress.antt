-- ===== src/Agent/Socket/Progress.antt =====
-- The reader's loop ends, and what it sends is bounded.
use robot_fleet.Prelude.{
  ℕ, zero, suc, ◌+◌, ◌≤◌, ◌<◌, ◌≡◌, refl, dec_lt, Bool-cases, inl, inr, String, Bool, Option, none,
  some, List, [], ◌∷◌, arith, length, take, drop, All,
}
use robot_fleet.Prelude.Bytes.{from_digits, length-take, length-drop}
use robot_fleet.Agent.Frame.{TelemetryFrame, parse_frame}
use robot_fleet.Agent.Frame.Bounds.{parse_frame_bounds, needed}
use robot_fleet.Agent.Socket.{
  Round, closed, unparsed, received, read_exact, parsed, go_on, with_payload, with_length,
  read_round, reader, max_payload,
}

-- A frame of the robot itself, with no more joints than a payload has room for.
abbrev pub IsOwn : String → TelemetryFrame → Type 0
IsOwn id frame = (frame.device_id ≡ id) × (needed (length frame.joints) ≤ max_payload)

-- what holds of a round on a stream of some length
abbrev IsRound : String → ℕ → Round → Type 0
IsRound id bytes closed = Unit
IsRound id bytes (unparsed rest) = length rest < bytes
IsRound id bytes (received frame rest) = (length rest < bytes) × IsOwn id frame

parsed-IsRound :
    (id : String) (bytes : ℕ) (payload rest : List ℕ) (result : Option TelemetryFrame)
    → parse_frame id payload ≡ result
    → length payload ≤ max_payload
    → length rest < bytes
    → IsRound id bytes (parsed rest result)
parsed-IsRound id bytes payload rest none e short less = less
parsed-IsRound id bytes payload rest (some frame) e short less =
    let (own, fits) = parse_frame_bounds id payload frame e in (less, (own, omega arith))

pub read_exact_short : (n : ℕ) (stream : List ℕ) → length stream < n → read_exact n stream ≡ none
read_exact_short n stream h = ground arith

pub read_exact_enough :
    (n : ℕ) (stream : List ℕ)
    → n ≤ length stream
    → read_exact n stream ≡ some (take n stream, drop n stream)
read_exact_enough n stream h = ground arith

with_payload-IsRound :
    (id : String) (n bytes : ℕ) (stream : List ℕ)
    → n ≤ max_payload
    → length stream < bytes
    → IsRound id bytes (with_payload id (read_exact n stream))
with_payload-IsRound id n bytes stream few less = elim (dec_lt (length stream) n) [
  | yes short ↦ rw (read_exact_short n stream short) tt
  | no long ↦ rw (read_exact_enough n stream (omega arith)) (
      parsed-IsRound id bytes (take n stream) (drop n stream) _ refl
        (omega (arith, length-take n stream (omega arith))) (omega (arith, length-drop n stream)))
]

with_length-IsRound :
    (id : String) (bytes : ℕ) (len_buf rest : List ℕ)
    → length rest < bytes
    → IsRound id bytes (with_length id (some (len_buf, rest)))
with_length-IsRound id bytes len_buf rest less = elim (dec_lt max_payload (from_digits 0 len_buf)) [
  | yes large ↦ ground arith
  | no small ↦
      ground (arith, with_payload-IsRound id (from_digits 0 len_buf) bytes rest (omega arith) less)
]

read_round-IsRound :
    (id : String) (stream : List ℕ) → IsRound id (length stream) (read_round id stream)
unfolding read_round
read_round-IsRound id stream = elim (dec_lt (length stream) 4) [
  | yes short ↦ rw (read_exact_short 4 stream short) tt
  | no long ↦ rw (read_exact_enough 4 stream (omega arith)) (
      with_length-IsRound id (length stream) (take 4 stream) (drop 4 stream)
        (omega (arith, length-drop 4 stream)))
]

abbrev Sends : String → Option (List TelemetryFrame) → Type 0
Sends id result = (frames : List TelemetryFrame) × ((result ≡ some frames) × All (IsOwn id) frames)

go_on-Sends :
    (id : String) (is_open : ℕ → Bool) (bytes sent : ℕ)
    (next : List ℕ → ℕ → Option (List TelemetryFrame)) (r : Round)
    → ((rest : List ℕ) (n : ℕ) → length rest < bytes → Sends id (next rest n))
    → IsRound id bytes r
    → Sends id (go_on is_open next sent r)
go_on-Sends id is_open bytes sent next closed rec h = ([], (refl, tt))
go_on-Sends id is_open bytes sent next (unparsed rest) rec h = rec rest sent h
go_on-Sends id is_open bytes sent next (received frame rest) rec (less, own) =
    let (frames, (read, all)) = rec rest (sent + 1) less in
    elim (Bool-cases (is_open sent)) [
      | inl yes_open ↦ (frame ∷ frames, (rw (yes_open, read) refl, (own, all)))
      | inr shut ↦ ([], (rw shut refl, tt))
    ]

-- One unit of fuel more than the stream has bytes is enough for the loop to end, whatever the bytes are
-- and whenever the channel closes. Every frame it has sent is of this robot, and has no more joints than
-- fit into one million bytes.
pub reader_total :
    (id : String) (is_open : ℕ → Bool) (fuel sent : ℕ) (stream : List ℕ)
    → length stream < fuel
    → (frames : List TelemetryFrame) × ((reader id is_open fuel stream sent ≡ some frames)
        × All (IsOwn id) frames)
unfolding reader
reader_total id is_open zero sent stream h = absurd (omega arith)
reader_total id is_open (suc fuel) sent stream h =
    go_on-Sends id is_open (length stream) sent (λ rest n. reader id is_open fuel rest n)
      (read_round id stream) (λ rest n less. reader_total id is_open fuel n rest (omega arith))
      (read_round-IsRound id stream)
