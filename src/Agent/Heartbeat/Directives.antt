-- ===== src/Agent/Heartbeat/Directives.antt =====
-- What the robot makes of the service's answers to its heartbeats.
use robot_fleet.Prelude.{
  ℕ, zero, suc, ◌-◌, ◌≡◌, refl, String, List, [], ◌∷◌, arith, Result, ok, err,
}
use robot_fleet.Grpc.{Status}
use robot_fleet.Sql.{Conn}
use robot_fleet.Agent.Error.{Error, grpc}
use robot_fleet.Agent.Heartbeat.{run_stream}
use robot_fleet.Device.Error as Service
use robot_fleet.Device.Store.{Tables, touch_last_seen}
use robot_fleet.Device.Heartbeat.{Stream, Responses, unknown_device, send, answer, respond, handle}

module _ (show_status : Status → String) where
  -- the responses as the client reads them
  abbrev pub read : Responses → List (Result Error String)
  read [] = []
  read (ok r ∷ rest) = ok r.directive ∷ read rest
  read (err e ∷ rest) = err (grpc (show_status e)) ∷ read rest

  abbrev reboots : Responses → ℕ
  reboots rs = (run_stream (read rs)).1

  reboots-send : (room : ℕ) (e : Status) → reboots (send room (err e)) ≡ 0
  unfolding run_stream
  reboots-send zero e = refl
  reboots-send (suc room) e = refl

  reboots-answer :
      (id : String) (r : Result Service.Error (Unit {0})) (room : ℕ) (c : Conn Tables)
      (later : Responses × Conn Tables)
      → reboots later.0 ≡ 0
      → reboots (answer id r room c later).0 ≡ 0
  unfolding run_stream
  reboots-answer id r room c later h = ground (arith, reboots-send room (unknown_device id))

  reboots-respond :
      (id : String) (stream : Stream) (room : ℕ) (c : Conn Tables)
      → reboots (respond id stream room c).0 ≡ 0
  unfolding respond run_stream
  reboots-respond id [] room c = refl
  reboots-respond id ((now, err e) ∷ rest) room c = refl
  reboots-respond id ((now, ok req) ∷ rest) room c =
      let t = touch_last_seen now id c in
      reboots-answer id t.0 room t.1 (respond id rest (room - 1) t.1)
        (reboots-respond id rest (room - 1) t.1)

  -- The service never makes a robot reboot: whatever the robot sends and the store answers, no response
  -- of the service carries the directive that the robot waits for.
  pub never_reboots :
      (stream : Stream) (room : ℕ) (c : Conn Tables)
      → (run_stream (read (handle show_status stream room c).0)).1 ≡ 0
  unfolding handle run_stream
  never_reboots [] room c = refl
  never_reboots ((now, err e) ∷ rest) room c = reboots-send room _
  never_reboots ((now, ok first) ∷ rest) room c =
      reboots-respond first.device_id ((now, ok first) ∷ rest) room c
