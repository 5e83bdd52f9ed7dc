-- ===== src/Tests/CycleTests.antt =====
-- A whole update at concrete inputs.
use robot_fleet.Prelude.{
  ◌≡◌, refl, String, true, none, some, [], ◌∷◌, arith, ok, err, if◌then◌else◌, ◌==◌,
}
use robot_fleet.Sql.Table.{find, contains}
use robot_fleet.Ota.Store.{job_id}
use robot_fleet.Ota.Store.Active.{IsValid}
use robot_fleet.Ota.Store.Jobs.{new_record}
use robot_fleet.Ota.Dispatcher.{sender_of}
use robot_fleet.Ota.Server.{
  check_response, new_job, command, watch_updates, check_update, ack_update, dispatch_update,
}
use robot_fleet.Agent.Update.{Machine, acknowledgement, apply_update, run_stream}
use robot_fleet.Agent.Update.Cycle.{ack_read, received, arriving, told, job, update_cycle}
use robot_fleet.Tests.OtaTests.{toy, yields, counts, delivers, update, with_jobs}

-- an empty address is no address
abbrev machine : Machine
machine = record {
  Bytes = String;
  temp_dir = ok tt;
  get = λ url. if url == "" then err "builder error" else ok (ok url);
  sha256 = λ b. b;
  save = λ b. ok tt;
  staging = ok tt;
  extract = λ b. ok true;
  has_install_script = λ b. true;
  start_script = λ b. ok tt;
  exit_code = λ b. "0";
}

no_jobs-IsValid : IsValid []
unfolding contains
no_jobs-IsValid = record { unique = tt; one_active = λ d. ground arith }

update_cycle_example :
    let watched = watch_updates toy "d9" (with_jobs []) in
    let q = dispatch_update toy "j1" "monday" (update "1.0.0") watched.1 in
    let applied = (apply_update machine "" "" []).0 in
    let ack =
      acknowledgement machine "d9"
        (received toy machine "j1" "monday" "tuesday" (update "1.0.0"))
        applied in
    let u = ack_update toy "tuesday" (ack_read ack) q.1 in
    ((receiver : toy.Receiver) × (channel : toy.Sender) × (watched.0 ≡ ok receiver)
      × (sender_of toy "d9" q.1.dispatcher ≡ some channel)
      × (yields receiver channel
          ≡ command (update "1.0.0") (new_record "j1" "monday" (new_job (update "1.0.0"))) ∷ [])
      × ((run_stream machine "d9"
            (arriving toy machine "j1" "monday" "tuesday"
              (update "1.0.0")
              (yields receiver channel))
            []).1.0
          ≡ ack ∷ []))
    × (u.0 ≡ ok true)
    × ((check_update toy "d9" u.1).0 ≡ ok (check_response none))
    × (find job_id "j1" u.1.store.tables
        ≡ some (told "tuesday" applied (job toy machine "j1" "monday" "tuesday" (update "1.0.0"))))
unfolding contains
update_cycle_example =
    update_cycle toy machine "j1" "monday" "tuesday" (update "1.0.0") yields counts delivers
      (with_jobs []) [] refl no_jobs-IsValid refl refl
