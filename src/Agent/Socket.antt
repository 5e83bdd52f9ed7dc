-- ===== src/Agent/Socket.antt =====
-- The reader task of `run_from_socket` in robot-agent/src/telemetry.rs. The stream is the list of the
-- bytes that the simulator sends before it closes the connection; `is_open` says of each send, by the
-- number of frames sent before it, whether the other end of the channel still receives.
pub mod Delivery
pub mod Progress
pub mod Simulator
use robot_fleet.Prelude.{
  ℕ, zero, suc, ◌+◌, ◌*◌, String, Bool, true, false, Option, none, some, List, [], ◌∷◌, ◌||◌,
  if◌then◌else◌, ltb, nat_eq, length, take, drop,
}
use robot_fleet.Prelude.Bytes.{from_digits}
use robot_fleet.Agent.Frame.{TelemetryFrame, parse_frame}

abbrev pub max_payload : ℕ
max_payload = 1000000

-- `read_exact`: the bytes read, and those left
abbrev pub read_exact : ℕ → List ℕ → Option (List ℕ × List ℕ)
read_exact n stream = if ltb (length stream) n then none else some (take n stream, drop n stream)

-- what one round of the loop reads, with the bytes left
pub data Round : Type 0 where
  closed : Round
  unparsed : List ℕ → Round
  received : TelemetryFrame → List ℕ → Round

abbrev pub parsed : List ℕ → Option TelemetryFrame → Round
parsed rest none = unparsed rest
parsed rest (some frame) = received frame rest

abbrev pub with_payload : String → Option (List ℕ × List ℕ) → Round
with_payload device_id none = closed
with_payload device_id (some (payload, rest)) = parsed rest (parse_frame device_id payload)

abbrev pub with_length : String → Option (List ℕ × List ℕ) → Round
with_length device_id none = closed
with_length device_id (some (len_buf, rest)) =
    let payload_len = from_digits 0 len_buf in
    if nat_eq payload_len 0 || ltb max_payload payload_len
    then closed
    else with_payload device_id (read_exact payload_len rest)

unfoldable pub read_round : String → List ℕ → Round
read_round device_id stream = with_length device_id (read_exact 4 stream)

abbrev pub sent_before :
    TelemetryFrame → Option (List TelemetryFrame) → Option (List TelemetryFrame)
sent_before frame none = none
sent_before frame (some frames) = some (frame ∷ frames)

-- the rest of a round; `next` is the loop on the bytes left
abbrev pub go_on :
    (ℕ → Bool)
    → (List ℕ → ℕ → Option (List TelemetryFrame))
    → ℕ
    → Round
    → Option (List TelemetryFrame)
go_on is_open next sent closed = some []
go_on is_open next sent (unparsed rest) = next rest sent
go_on is_open next sent (received frame rest) =
    if is_open sent then sent_before frame (next rest (sent + 1)) else some []

-- the frames sent, unless the fuel runs out
unfoldable pub reader : String → (ℕ → Bool) → ℕ → List ℕ → ℕ → Option (List TelemetryFrame)
reader device_id is_open zero stream sent = none
reader device_id is_open (suc fuel) stream sent =
    go_on is_open (λ rest n. reader device_id is_open fuel rest n) sent
      (read_round device_id stream)
