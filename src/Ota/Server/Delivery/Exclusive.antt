-- ===== src/Ota/Server/Delivery/Exclusive.antt =====
-- What holds of the table of jobs however long the service runs and whatever fails.
use robot_fleet.Prelude.{◌≡◌, refl, String, List, [], ◌∷◌, if◌then◌else◌, arith}
use robot_fleet.Ota.Store.{
  completed, failed, create_job, update_status, get_pending_for_device, list_for_device,
}
use robot_fleet.Ota.Store.Active.{IsValid, create_job-IsValid, update_status-IsValid}
use robot_fleet.Ota.Dispatcher.{Broadcast}
use robot_fleet.Ota.Server.{
  OtaServer, DispatchUpdateRequest, AckUpdateRequest, ListUpdateJobsRequest, new_job, given,
  watch_updates, check_update, ack_update, dispatch_update, list_update_jobs,
}

pub data Rpc : Type 0 where
  watches checks : String → Rpc
  acks : String → AckUpdateRequest → Rpc
  dispatches : String → String → DispatchUpdateRequest → Rpc
  lists : ListUpdateJobsRequest → Rpc

module _ (broadcast : Broadcast) where
  unfoldable pub perform : Rpc → OtaServer broadcast → OtaServer broadcast
  perform (watches device_id) s = (watch_updates broadcast device_id s).1
  perform (checks device_id) s = (check_update broadcast device_id s).1
  perform (acks now req) s = (ack_update broadcast now req s).1
  perform (dispatches id now req) s = (dispatch_update broadcast id now req s).1
  perform (lists req) s = (list_update_jobs broadcast req s).1

  unfoldable pub run : List Rpc → OtaServer broadcast → OtaServer broadcast
  run [] s = s
  run (rpc ∷ rpcs) s = run rpcs (perform rpc s)

  pub rows-watch_updates :
      (d : String) (s : OtaServer broadcast)
      → (watch_updates broadcast d s).1.store.tables ≡ s.store.tables
  unfolding watch_updates
  rows-watch_updates d s = refl

  pub rows-check_update :
      (d : String) (s : OtaServer broadcast)
      → (check_update broadcast d s).1.store.tables ≡ s.store.tables
  unfolding check_update get_pending_for_device
  rows-check_update d s = ground arith

  pub rows-list_update_jobs :
      (req : ListUpdateJobsRequest) (s : OtaServer broadcast)
      → (list_update_jobs broadcast req s).1.store.tables ≡ s.store.tables
  unfolding list_update_jobs list_for_device
  rows-list_update_jobs req s = ground arith

  pub store-dispatch_update :
      (id now : String) (req : DispatchUpdateRequest) (s : OtaServer broadcast)
      → (dispatch_update broadcast id now req s).1.store
        ≡ (create_job id now (new_job req) s.store).1
  unfolding dispatch_update
  store-dispatch_update id now req s = ground arith

  pub store-ack_update :
      (now : String) (req : AckUpdateRequest) (s : OtaServer broadcast)
      → (ack_update broadcast now req s).1.store
        ≡ (update_status now req.update_job_id
            (if req.success then completed else failed)
            (given req.error_message)
            s.store).1
  unfolding ack_update
  store-ack_update now req s = ground arith

  pub perform-IsValid :
      (rpc : Rpc) (s : OtaServer broadcast)
      → IsValid s.store.tables
      → IsValid (perform rpc s).store.tables
  unfolding perform
  perform-IsValid (watches d) s v = rw (rows-watch_updates d s) v
  perform-IsValid (checks d) s v = rw (rows-check_update d s) v
  perform-IsValid (lists req) s v = rw (rows-list_update_jobs req s) v
  perform-IsValid (dispatches id now req) s v =
      rw (store-dispatch_update id now req s) (create_job-IsValid id now (new_job req) s.store v)
  perform-IsValid (acks now req) s v = rw (store-ack_update now req s) (
      update_status-IsValid now req.update_job_id (if req.success then completed else failed)
        (given req.error_message) s.store (ground arith) v)

  -- However the service is used and whatever fails, the ids of the jobs differ and no device has two
  -- active jobs at a time, if it was so at the start.
  pub one_active_job :
      (rpcs : List Rpc) (s : OtaServer broadcast)
      → IsValid s.store.tables
      → IsValid (run rpcs s).store.tables
  unfolding run
  one_active_job [] s v = v
  one_active_job (rpc ∷ rpcs) s v = one_active_job rpcs (perform rpc s) (perform-IsValid rpc s v)
