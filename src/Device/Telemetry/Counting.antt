-- ===== src/Device/Telemetry/Counting.antt =====
-- The counts that a telemetry stream acknowledges and logs.
use robot_fleet.Prelude.{
  ℕ, suc, ◌+◌, ◌<◌, ◌≡◌, refl, String, false, List, [], ◌∷◌, arith, Result, ok, err,
}
use robot_fleet.Grpc.{Status}
use robot_fleet.Device.Telemetry.{
  TelemetryFrame, TelemetryAck, LogLine, Session, started, counted, window, ack, push, serve, ended,
}

pub frames_logged : List LogLine → ℕ
frames_logged [] = 0
frames_logged (l ∷ ls) = l.frames_in_window + frames_logged ls

abbrev pub acknowledged : List (Result Status TelemetryAck) → ℕ
acknowledged [] = 0
acknowledged (err e ∷ rest) = acknowledged rest
acknowledged (ok a ∷ rest) = suc (acknowledged rest)

-- Each acknowledgement, newest first, counts one frame more than the one before it.
abbrev pub IsNumbered : List (Result Status TelemetryAck) → Type 0
IsNumbered [] = Unit
IsNumbered (err e ∷ rest) = IsNumbered rest
IsNumbered (ok a ∷ rest) =
    (a.frames_received ≡ suc (acknowledged rest)) × (a.throttle ≡ false) × IsNumbered rest

-- the frames before the stream ends or breaks
abbrev pub frames_before_end : List (ℕ × Result Status TelemetryFrame) → ℕ
frames_before_end [] = 0
frames_before_end ((now, err e) ∷ rest) = 0
frames_before_end ((now, ok frame) ∷ rest) = suc (frames_before_end rest)

module _ (show_status : Status → String) where
  window-balance :
      (now : ℕ) (frame : TelemetryFrame) (s : Session)
      → frames_logged s.logged + s.frames_in_window ≡ s.frames_received
      → let t = window now (counted now frame s) in
        frames_logged t.logged + t.frames_in_window ≡ t.frames_received
  unfolding frames_logged
  window-balance now frame s h = ground arith

  serve-balance :
      (stream : List (ℕ × Result Status TelemetryFrame)) (s : Session)
      → frames_logged s.logged + s.frames_in_window ≡ s.frames_received
      → let t = serve show_status stream s in
        frames_logged t.logged + t.frames_in_window ≡ t.frames_received
  unfolding serve
  serve-balance [] s h = h
  serve-balance ((now, err e) ∷ rest) s h = ground arith
  serve-balance ((now, ok frame) ∷ rest) s h =
      let w = window-balance now frame s h in
      ground (
        arith,
        w,
        serve-balance rest
            (push (ack (window now (counted now frame s))) (window now (counted now frame s))) w,
      )

  window-sent :
      (now : ℕ) (frame : TelemetryFrame) (s : Session)
      → let t = window now (counted now frame s) in
        (t.sent ≡ s.sent) × (t.room ≡ s.room) × (t.frames_received ≡ suc s.frames_received)
  window-sent now frame s = ground arith

  serve-IsNumbered :
      (stream : List (ℕ × Result Status TelemetryFrame)) (s : Session)
      → IsNumbered s.sent
      → acknowledged s.sent ≡ s.frames_received
      → IsNumbered (serve show_status stream s).sent
  unfolding serve
  serve-IsNumbered [] s n h = n
  serve-IsNumbered ((now, err e) ∷ rest) s n h = ground arith
  serve-IsNumbered ((now, ok frame) ∷ rest) s n h =
      let t : Session = window now (counted now frame s) in
      let (same, _, more) = window-sent now frame s in
      ground (arith, same, more, serve-IsNumbered rest (push (ack t) t))

  serve_acknowledges :
      (stream : List (ℕ × Result Status TelemetryFrame)) (s : Session)
      → frames_before_end stream < s.room
      → acknowledged (serve show_status stream s).sent
        ≡ acknowledged s.sent + frames_before_end stream
  unfolding serve
  serve_acknowledges [] s h = omega arith
  serve_acknowledges ((now, err e) ∷ rest) s h = ground arith
  serve_acknowledges ((now, ok frame) ∷ rest) s h =
      let t : Session = window now (counted now frame s) in
      let (same, room, _) = window-sent now frame s in
      ground (arith, same, room, serve_acknowledges rest (push (ack t) t))

-- The log accounts for every frame: when the stream is over, the windows that were logged add up to
-- exactly the frames that were received.
pub every_frame_logged :
    (show_status : Status → String) (stream : List (ℕ × Result Status TelemetryFrame))
    (now room : ℕ)
    → let t = ended (serve show_status stream (started now room)) in
      frames_logged t.logged ≡ t.frames_received
unfolding ended frames_logged
every_frame_logged show_status stream now room =
    let t = serve-balance show_status stream (started now room) refl in ground (arith, t)

-- The acknowledgements count 1, 2, 3 and so on without a gap and never ask for a throttle, and each
-- frame that comes before the stream ends or breaks has one, if the client takes that many and one
-- message more.
pub acknowledgements-IsNumbered :
    (show_status : Status → String) (stream : List (ℕ × Result Status TelemetryFrame))
    (now room : ℕ)
    → frames_before_end stream < room
    → let t = serve show_status stream (started now room) in
      IsNumbered t.sent × (acknowledged t.sent ≡ frames_before_end stream)
acknowledgements-IsNumbered show_status stream now room h = (
  serve-IsNumbered show_status stream (started now room) tt refl,
  omega (arith, serve_acknowledges show_status stream (started now room) h),
)
