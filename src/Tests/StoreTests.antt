-- ===== src/Tests/StoreTests.antt =====
-- The device store at concrete inputs.
use robot_fleet.Prelude.{
  ◌≡◌, refl, ap, true, false, none, some, List, [], ◌∷◌, arith, err, is_ok, ◌==◌,
}
use robot_fleet.Sql.{Fault, failure, durable}
use robot_fleet.Sql.Table.{find, contains}
use robot_fleet.Sql.Keeping.{Holds}
use robot_fleet.Device.Error.{db}
use robot_fleet.Device.Store.{PreEnrollmentRecord, lookup_and_claim, claim_manifest_entry}
use robot_fleet.Device.Store.Calls.{Call, creates, touches, registers, claims, seeds, perform, run}
use robot_fleet.Device.Store.Validity.{IsValid, run-IsValid}
use robot_fleet.Device.Store.Claims.{
  is_claimed, OtherSerial, IsEnrolled, claim_wins_once, enrolled_stays_claimed,
}
use robot_fleet.Device.Store.Manifest.{token_used_once}
use robot_fleet.Device.Store.Phases.{act, phase, perform_follows}
use robot_fleet.Device.Store.Phases.Runs.{replay, run_along}
use robot_fleet.Device.Store.Stuck.{failed_commit_blocks}
use robot_fleet.Device.Store.Paging.{walk, pages_complete}
use robot_fleet.Tests.Fixtures.{device, pre, tables, registry, faulty, newcomer}

abbrev day : List Call
day =
    creates "d2" 20 newcomer
    ∷ claims "SN-1"
    ∷ registers "SN-5" "humanoid-v2"
    ∷ touches 30 "d9"
    ∷ seeds "SN-4" "humanoid-v2" "token"
    ∷ []

tables-IsValid : Holds IsValid registry
unfolding contains
tables-IsValid = record {
  now = record {
    ids = (refl, (refl, tt));
    serials = (refl, (refl, tt));
    claims = (refl, (refl, tt));
    entries = (refl, (refl, tt));
  };
  after_rollback = tt;
}

run-IsValid_example : Holds IsValid (run day registry)
run-IsValid_example = run-IsValid day registry (tt, (tt, (tt, (tt, (tt, tt))))) tables-IsValid

abbrev pre_enrolled : PreEnrollmentRecord
pre_enrolled = record { serial = "SN-1"; model = "humanoid-v2" }

other : OtherSerial "SN-1" "SN-5"
other same = let clash : false ≡ true = ap (λ s. s == "SN-1") same in cc

claim_wins_once_example :
    is_ok (lookup_and_claim "SN-1" (run day (lookup_and_claim "SN-1" registry).1)).0 ≡ false
unfolding lookup_and_claim find
claim_wins_once_example =
    claim_wins_once "SN-1" registry pre_enrolled day refl (tt, (tt, (other, (tt, (tt, tt)))))

sn_9-IsEnrolled : Holds (IsEnrolled "SN-9") registry
unfolding is_claimed find contains
sn_9-IsEnrolled = record { now = record { claimed = refl; device = refl }; after_rollback = tt }

enrolled_stays_claimed_example :
    is_ok (lookup_and_claim "SN-9" (run (registers "SN-9" "humanoid-v2" ∷ []) registry)).0 ≡ false
enrolled_stays_claimed_example =
    enrolled_stays_claimed "SN-9" registry (registers "SN-9" "humanoid-v2" ∷ []) sn_9-IsEnrolled
      (tt, tt)

token_used_once_example :
    is_ok
      (claim_manifest_entry 50 "SN-1" "guess"
        (run day (claim_manifest_entry 7 "SN-1" "token" registry).1)).0
    ≡ false
unfolding claim_manifest_entry find contains
token_used_once_example =
    token_used_once "SN-1" "token" "guess" 7 50 registry "humanoid-v2" day refl
      (tt, (tt, (tt, (tt, (tt, tt)))))

pages_complete_example :
    walk none (some "active") 1 registry 3 none ≡ device "d9" "SN-9" "active" ∷ []
unfolding contains
pages_complete_example =
    pages_complete none (some "active") 1 3 registry refl (refl, (refl, tt)) (omega arith)
      (omega arith)

perform_follows_example :
    act "SN-1" (claims "SN-1") (phase "SN-1" tables)
    ≡ some (phase "SN-1" (durable (perform (claims "SN-1") registry)))
unfolding lookup_and_claim phase find
perform_follows_example = perform_follows "SN-1" (claims "SN-1") registry refl

run_along_example :
    replay "SN-1" day faulty (some (phase "SN-1" (durable faulty)))
    ≡ some (phase "SN-1" (durable (run day faulty)))
run_along_example = run_along "SN-1" day faulty

-- SQLITE_BUSY at COMMIT leaves the transaction open
abbrev busy : Fault
busy = record { text = "database is locked"; rolls_back = false; at_row = none }

failed_commit_blocks_example :
    let q =
      lookup_and_claim "SN-1"
        (record { tables = tables; saved = none; faults = none ∷ none ∷ none ∷ some busy ∷ [] }) in
    (q.0 ≡ err (db (failure "database is locked")))
    × (is_ok (lookup_and_claim "SN-1" (run day q.1)).0 ≡ false)
    × (is_ok (claim_manifest_entry 40 "SN-1" "token" (run day q.1)).0 ≡ false)
    × (durable (run day q.1) ≡ tables)
unfolding find
failed_commit_blocks_example =
    failed_commit_blocks "SN-1" "SN-1" "token" 40 (pre "SN-1" 0) tables busy [] day refl refl refl
      refl
