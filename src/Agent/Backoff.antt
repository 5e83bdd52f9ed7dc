-- ===== src/Agent/Backoff.antt =====
-- The loops `run` of robot-agent/src/heartbeat.rs, ota.rs and telemetry.rs, which connect again when a
-- stream fails. The streams' results are given; waits are in seconds.
use robot_fleet.Prelude.{
  ℕ, zero, suc, ◌*◌, ◌^◌, ◌≡◌, refl, arith, Bool, true, false, List, [], ◌∷◌, ltb, if◌then◌else◌,
  Result, ok, err,
}
use robot_fleet.Agent.Error.{Error}

abbrev pub max_backoff : ℕ
max_backoff = 60

-- Duration::min
abbrev pub capped : ℕ → ℕ
capped b = if ltb max_backoff b then max_backoff else b

-- what a loop has done over the results of some streams
pub record Progress : Type 0 where
  pub returned : Bool
  pub waits : List ℕ

abbrev pub waited : ℕ → Progress → Progress
waited b p = record p { waits = b ∷ p.waits }

-- the loop, with the next wait; it returns only after a stream that ended without an error
unfoldable pub reconnect : ℕ → List (Result Error (Unit {0})) → Progress
reconnect backoff [] = record { returned = false; waits = [] }
reconnect backoff (ok u ∷ rest) = record { returned = true; waits = [] }
reconnect backoff (err e ∷ rest) =
    let later = reconnect (capped (backoff * 2)) rest in waited backoff later

abbrev pub run : List (Result Error (Unit {0})) → Progress
run = reconnect 1

-- the failures before the first stream that ends without an error
abbrev pub failures : List (Result Error (Unit {0})) → ℕ
failures [] = 0
failures (ok u ∷ rest) = 0
failures (err e ∷ rest) = suc (failures rest)

abbrev pub any_ok : List (Result Error (Unit {0})) → Bool
any_ok [] = false
any_ok (ok u ∷ rest) = true
any_ok (err e ∷ rest) = any_ok rest

-- the wait after the stream has failed `n` times before
unfoldable pub backoff : ℕ → ℕ
backoff zero = 1
backoff (suc n) = let b = backoff n in capped (b * 2)

-- The wait doubles with every failure from one second on until it is one minute, and stays there.
pub backoff_closed : (n : ℕ) → backoff n ≡ capped (2 ^ n)
unfolding backoff
backoff_closed zero = refl
backoff_closed (suc n) = ground (arith, backoff_closed n)

-- the waits after failure `k` and the next ones, `n` in all
abbrev pub doubling : ℕ → ℕ → List ℕ
doubling k zero = []
doubling k (suc n) = capped (2 ^ k) ∷ doubling (suc k) n

reconnect-backoff :
    (k : ℕ) (streams : List (Result Error (Unit {0})))
    → reconnect (backoff k) streams
      ≡ record { returned = any_ok streams; waits = doubling k (failures streams) }
unfolding reconnect backoff
reconnect-backoff k [] = refl
reconnect-backoff k (ok u ∷ rest) = refl
reconnect-backoff k (err e ∷ rest) =
    ground (arith, reconnect-backoff (suc k) rest, backoff_closed k)

-- Whatever the streams come to, the loop returns exactly when one of them ends without an error, and has
-- waited once for each failure before that: 1, 2, 4, … seconds, and never longer than a minute.
pub run-doubling :
    (streams : List (Result Error (Unit {0})))
    → run streams ≡ record { returned = any_ok streams; waits = doubling 0 (failures streams) }
unfolding backoff
run-doubling streams = reconnect-backoff 0 streams
