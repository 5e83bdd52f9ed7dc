-- ===== src/Ota/Server/Concurrent/Refinement.antt =====
-- The handler of a dispatch, run alone, takes steps of the system in which dispatches overlap.
use robot_fleet.Prelude.{
  ◌≡◌, refl, String, [], ◌∷◌, arith, ok, err, is_ok, Result-cases, inl, inr, if◌then◌else◌, ℕ,
}
use robot_fleet.Ota.Error.{Error}
use robot_fleet.Ota.Store.{JobRecord, new_row, row_to_record, create_job}
use robot_fleet.Ota.Dispatcher.{Broadcast, dispatch}
use robot_fleet.Ota.Server.{DispatchUpdateRequest, new_job, command, dispatch_update}
use robot_fleet.Ota.Server.Concurrent.{
  Order, System, store_after, created, dispatched, creates, refuses, sends, misses, Reach, here,
  next,
}
use robot_fleet.Ota.Server.Concurrent.Orders.{create_job_done}

module _ (broadcast : Broadcast) (id now : String) (req : DispatchUpdateRequest) where
  -- the order that the handler gives
  abbrev pub order : Order
  order = (req.device_id, command req (row_to_record (new_row id now (new_job req))))

  abbrev pub end_of : System broadcast → System broadcast
  end_of s = record {
    server = (dispatch_update broadcast id now req s.server).1;
    in_flight = s.in_flight;
    sent =
        if is_ok (dispatch_update broadcast id now req s.server).0 then order ∷ s.sent else s.sent;
  }

  module _ (s : System broadcast) where
    refused :
        (e : Error)
        → (create_job id now (new_job req) s.server.store).0 ≡ err e
        → end_of s
          ≡ record s { server = record s.server { store = store_after broadcast id now req s } }
    unfolding dispatch_update
    refused e h = ground (arith, h)

    reached :
        (job : JobRecord) (n : ℕ)
        → (create_job id now (new_job req) s.server.store).0 ≡ ok job
        → job ≡ row_to_record (new_row id now (new_job req))
        → (dispatch broadcast req.device_id (command req job) s.server.dispatcher).0 ≡ ok n
        → end_of s
          ≡ dispatched broadcast s.in_flight
              ((req.device_id, command req job) ∷ s.sent)
              (req.device_id, command req job)
              (created broadcast id now req job s)
    unfolding dispatch_update
    reached job n h same k = ground (arith, h, same, k)

    missed :
        (job : JobRecord) (e : Error)
        → (create_job id now (new_job req) s.server.store).0 ≡ ok job
        → (dispatch broadcast req.device_id (command req job) s.server.dispatcher).0 ≡ err e
        → end_of s
          ≡ dispatched broadcast s.in_flight s.sent
              (req.device_id, command req job)
              (created broadcast id now req job s)
    unfolding dispatch_update
    missed job e h k = ground (arith, h, k)

    -- Every run of the handler, to whatever answer, is a sequence of the system's steps: it ends in the
    -- server that the handler leaves, with the same orders in flight as before, and its order is sent
    -- exactly if it answers with a job.
    pub dispatch_update-Reach : Reach broadcast s (end_of s)
    dispatch_update-Reach = elim (Result-cases (create_job id now (new_job req) s.server.store).0) [
      | inl (e, h) ↦ rw (refused e h) (next here (refuses id now req e h))
      | inr (job, h) ↦
          let same = (create_job_done id now (new_job req) s.server.store job h).0 in
          let o : Order = (req.device_id, command req job) in
          let first = next here (creates id now req job h) in
          elim (Result-cases
            (dispatch broadcast req.device_id (command req job) s.server.dispatcher).0) [
              | inl (e, k) ↦ rw (missed job e h k) (next first (misses [] s.in_flight o e refl k))
              | inr (n, k) ↦
                  rw (reached job n h same k) (next first (sends [] s.in_flight o n refl k))
            ]
    ]
