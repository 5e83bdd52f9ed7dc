-- ===== src/Tests/DispatchTests.antt =====
-- Overlapping dispatches at concrete inputs.
use robot_fleet.Prelude.{◌+◌, ◌≤◌, refl, String, [], ◌∷◌, All, arith}
use robot_fleet.Sql.Table.{contains, find}
use robot_fleet.Ota.Store.{create_job, new_row, row_to_record}
use robot_fleet.Ota.Store.Active.{IsValid}
use robot_fleet.Ota.Dispatcher.{dispatch, sender_of, subscribe, set_sender}
use robot_fleet.Ota.Server.{command, new_job, watch_updates}
use robot_fleet.Ota.Server.Delivery.Exclusive.{watches, perform}
use robot_fleet.Ota.Server.Concurrent.{
  Order, System, Reach, here, next, creates, sends, calls, created, dispatched, times, HasJob,
}
use robot_fleet.Ota.Server.Concurrent.Once.{sent_once}
use robot_fleet.Ota.Server.Concurrent.Refinement.{end_of, dispatch_update-Reach}
use robot_fleet.Tests.OtaTests.{toy, update, with_jobs}

abbrev quiet : System toy
quiet = record { server = with_jobs []; in_flight = []; sent = [] }

abbrev order : Order
order = (
  "d9",
  command (update "1.0.0")
      (row_to_record (new_row "j1" "2026-01-01 00:00:00" (new_job (update "1.0.0")))),
)

-- the robot starts to watch between the two steps of the handler
abbrev waiting : System toy
waiting =
    created toy "j1" "2026-01-01 00:00:00" (update "1.0.0")
      (row_to_record (new_row "j1" "2026-01-01 00:00:00" (new_job (update "1.0.0")))) quiet

abbrev watched : System toy
watched = record waiting { server = perform toy (watches "d9") waiting.server }

abbrev finished : System toy
finished = dispatched toy [] (order ∷ []) order watched

reaches : Reach toy quiet finished
unfolding create_job contains find dispatch sender_of perform watch_updates subscribe set_sender
reaches =
    next
      (next
        (next here (
          creates "j1" "2026-01-01 00:00:00" (update "1.0.0")
            (row_to_record (new_row "j1" "2026-01-01 00:00:00" (new_job (update "1.0.0")))) refl))
        (calls (watches "d9") refl))
      (sends [] [] order 1 refl refl)

no_jobs-IsValid : IsValid []
no_jobs-IsValid = record { unique = tt; one_active = λ d. omega arith }

sent_once_example :
    ((id : String) → times id finished.in_flight + times id finished.sent ≤ 1)
    × All (HasJob finished.server.store.tables) finished.sent
    × IsValid finished.server.store.tables
sent_once_example = sent_once toy (with_jobs []) finished no_jobs-IsValid reaches

dispatch_update-Reach_example :
    Reach toy watched (end_of toy "j2" "2026-01-02 00:00:00" (update "2.0.0") watched)
dispatch_update-Reach_example =
    dispatch_update-Reach toy "j2" "2026-01-02 00:00:00" (update "2.0.0") watched
