-- ===== src/Tests/OtaTests.antt =====
-- The update service at concrete inputs, with a channel that counts its receivers and keeps what it was
-- sent.
use robot_fleet.Prelude.{
  ℕ, suc, ◌+◌, ◌≡◌, refl, String, true, none, some, List, [], ◌∷◌, ◌++◌, arith, ok, err, length,
  drop,
}
use robot_fleet.Prelude.Text.{format}
use robot_fleet.Grpc.{status, already_exists, unavailable}
use robot_fleet.Sql.Table.{contains}
use robot_fleet.Ota.Store.{NewJob, JobRow, Jobs, new_row}
use robot_fleet.Ota.Store.Active.{IsValid}
use robot_fleet.Ota.Store.Jobs.{new_record}
use robot_fleet.Ota.Dispatcher.{UpdateCommand, Broadcast, sender_of}
use robot_fleet.Ota.Server.{
  OtaServer, DispatchUpdateRequest, AckUpdateRequest, check_response, new_job, command,
  watch_updates, check_update, dispatch_update,
}
use robot_fleet.Ota.Server.Delivery.{job_of, dispatch_delivers, unheard_dispatch_blocks}

abbrev pub toy : Broadcast
toy = record {
  Sender = ℕ × List UpdateCommand;
  Receiver = ℕ;
  channel = λ capacity. (0, []);
  subscribe = λ s. (length s.1, (s.0 + 1, s.1));
  receiver_count = λ s. s.0;
  send = λ cmd s. (s.0, s.1 ++ cmd ∷ []);
}

-- a receiver knows how many commands were sent before it subscribed
abbrev pub yields : ℕ → ℕ × List UpdateCommand → List UpdateCommand
yields receiver channel = drop receiver channel.1

drop-length :
    (cs : List UpdateCommand) (cmd : UpdateCommand) → drop (length cs) (cs ++ cmd ∷ []) ≡ cmd ∷ []
drop-length [] cmd = refl
drop-length (c ∷ cs) cmd = drop-length cs cmd

pub delivers :
    (b : ℕ × List UpdateCommand) (cmd : UpdateCommand)
    → yields (toy.subscribe b).0 (toy.send cmd (toy.subscribe b).1) ≡ cmd ∷ []
delivers b cmd = drop-length b.1 cmd

pub counts :
    (b : ℕ × List UpdateCommand)
    → toy.receiver_count (toy.subscribe b).1 ≡ suc (toy.receiver_count b)
counts b = omega arith

abbrev pub update : String → DispatchUpdateRequest
update version = record { device_id = "d9"; target_version = version; apply_by = none }

-- a table with one job
abbrev pub job : JobRow
job = new_row "j1" "2026-01-01 00:00:00" (new_job (update "1.0.0"))

abbrev pub with_jobs : Jobs → OtaServer toy
with_jobs rows = record {
  store = record { tables = rows; saved = none; faults = [] };
  dispatcher = [];
}

abbrev firmware : NewJob
firmware = record {
  device_id = "d9";
  target_version = "2.0.0";
  artifact_url = "url";
  sha256 = "sum";
  size_bytes = 9223372036854775808;
}

dispatch_delivers_example :
    let watched = watch_updates toy "d9" (with_jobs []) in
    let q = dispatch_update toy "j1" "2026-01-01 00:00:00" (update "1.0.0") watched.1 in
    (q.0 ≡ ok (job_of "j1" "2026-01-01 00:00:00" (update "1.0.0")))
    × ((receiver : ℕ) × (channel : ℕ × List UpdateCommand) × (watched.0 ≡ ok receiver)
        × (sender_of toy "d9" q.1.dispatcher ≡ some channel)
        × (yields receiver channel
            ≡ command
                (update "1.0.0")
                (new_record "j1" "2026-01-01 00:00:00" (new_job (update "1.0.0")))
              ∷ []))
    × ((check_update toy "d9" q.1).0
        ≡ ok (
            check_response
              (some (new_record "j1" "2026-01-01 00:00:00" (new_job (update "1.0.0"))))))
unfolding contains
dispatch_delivers_example =
    dispatch_delivers toy yields counts delivers "j1" "2026-01-01 00:00:00" (update "1.0.0")
      (with_jobs []) refl refl refl

unheard_dispatch_blocks_example :
    let q = dispatch_update toy "j1" "2026-01-01 00:00:00" (update "1.0.0") (with_jobs []) in
    (q.0 ≡ err (status unavailable (format ("device " ∷ "d9" ∷ " is not connected" ∷ []))))
    × ((check_update toy "d9" q.1).0
        ≡ ok (
            check_response
              (some (new_record "j1" "2026-01-01 00:00:00" (new_job (update "1.0.0"))))))
    × (dispatch_update toy "j2" "2026-01-02 00:00:00" (update "2.0.0") q.1
        ≡ (err (status already_exists "device already has an active job"), q.1))
unfolding contains sender_of
unheard_dispatch_blocks_example =
    unheard_dispatch_blocks toy "j1" "2026-01-01 00:00:00" "j2" "2026-01-02 00:00:00"
      (update "1.0.0") (update "2.0.0") (with_jobs []) refl refl refl refl refl

pub job-IsValid : IsValid (job ∷ [])
unfolding contains
job-IsValid = record { unique = (refl, tt); one_active = λ d. ground arith }

abbrev success : AckUpdateRequest
success = record { device_id = "d9"; update_job_id = "j1"; success = true; error_message = "" }
