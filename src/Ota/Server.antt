-- ===== src/Ota/Server.antt =====
-- ota-service/src/server/mod.rs: the gRPC service. `id` and `now` are the UUID and SQLite's time of one
-- call; `apply_by` is in Unix seconds. The times of a job in a response are never set and left out.
pub mod Delivery
pub mod Concurrent
use robot_fleet.Prelude.{
  ℕ, zero, suc, String, Bool, true, false, Option, none, some, List, [], ◌∷◌, map, Result, ok, err,
  Method, pure, with_error, ◌>>=◌, ◌>>◌, if◌then◌else◌, ◌==◌, unwrap_or,
}
use robot_fleet.Prelude.Int.{ℤ, pos, negsuc}
use robot_fleet.Prelude.Text.{format}
use robot_fleet.Grpc as Grpc
use robot_fleet.Grpc.{Status, status, already_exists, unavailable, internal}
use robot_fleet.Sql.{Conn, sql_text}
use robot_fleet.Ota.Error.{Error, not_found, already_pending, no_active_subscribers, db}
use robot_fleet.Ota.Store.{
  JobStatus, completed, failed, as_str, NewJob, JobRecord, Jobs, JobStore, create_job,
  get_pending_for_device, update_status, list_for_device,
}
use robot_fleet.Ota.Dispatcher.{UpdateCommand, Broadcast, Senders, subscribe, dispatch}

abbrev pub to_status : Error → Status
to_status (not_found m) = status Grpc.not_found m
to_status already_pending = status already_exists "device already has an active job"
to_status (no_active_subscribers id) =
    status unavailable (format ("device " ∷ id ∷ " is not connected" ∷ []))
to_status (db e) = status internal (sql_text e)

pub record UpdateJob : Type 0 where
  pub update_job_id : String
  pub device_id : String
  pub target_version : String
  pub artifact_url : String
  pub status : String
  pub error_message : String

abbrev pub record_to_proto : JobRecord → UpdateJob
record_to_proto r = record {
  update_job_id = r.id;
  device_id = r.device_id;
  target_version = r.target_version;
  artifact_url = r.artifact_url;
  status = as_str r.status;
  error_message = unwrap_or r.error_message "";
}

pub record CheckUpdateResponse : Type 0 where
  pub update_available : Bool
  pub target_version : String
  pub artifact_url : String
  pub sha256 : String
  pub size_bytes : ℕ
  pub update_job_id : String

abbrev pub check_response : Option JobRecord → CheckUpdateResponse
check_response none = record {
  update_available = false;
  target_version = "";
  artifact_url = "";
  sha256 = "";
  size_bytes = 0;
  update_job_id = "";
}
check_response (some j) = record {
  update_available = true;
  target_version = j.target_version;
  artifact_url = j.artifact_url;
  sha256 = j.sha256;
  size_bytes = j.size_bytes;
  update_job_id = j.id;
}

-- `device_id` is not used.
pub record AckUpdateRequest : Type 0 where
  pub device_id : String
  pub update_job_id : String
  pub success : Bool
  pub error_message : String

pub record DispatchUpdateRequest : Type 0 where
  pub device_id : String
  pub target_version : String
  pub apply_by : Option ℕ

pub record ListUpdateJobsRequest : Type 0 where
  pub device_id : String
  pub limit : ℤ
  pub cursor : String

-- an empty field of a request means that it is absent
abbrev pub given : String → Option String
given s = if s == "" then none else some s

abbrev pub page_limit : ℤ → ℕ
page_limit (pos zero) = 20
page_limit (pos (suc n)) = suc n
page_limit (negsuc n) = 20

abbrev pub new_job : DispatchUpdateRequest → NewJob
new_job req = record {
  device_id = req.device_id;
  target_version = req.target_version;
  artifact_url = "";
  sha256 = "";
  size_bytes = 0;
}

abbrev pub command : DispatchUpdateRequest → JobRecord → UpdateCommand
command req job = record {
  update_job_id = job.id;
  target_version = job.target_version;
  artifact_url = job.artifact_url;
  sha256 = job.sha256;
  size_bytes = job.size_bytes;
  apply_by = req.apply_by;
}

module _ (broadcast : Broadcast) where
  pub record OtaServer : Type 0 where
    pub store : Conn Jobs
    pub dispatcher : Senders broadcast

  module _ {A : Type 0} where
    unfoldable pub on_store : JobStore A → Method OtaServer Status A
    on_store m s = let (r, c) = with_error to_status m s.store in (r, record s { store = c })

    unfoldable pub on_dispatcher : Method (Senders broadcast) Error A → Method OtaServer Status A
    on_dispatcher m s =
        let (r, d) = with_error to_status m s.dispatcher in (r, record s { dispatcher = d })

  -- The response is the stream of what the receiver yields.
  unfoldable pub watch_updates : String → Method OtaServer Status broadcast.Receiver
  watch_updates device_id s =
      let (receiver, d) = subscribe broadcast device_id s.dispatcher in
      (ok receiver, record s { dispatcher = d })

  unfoldable pub check_update : String → Method OtaServer Status CheckUpdateResponse
  unfolding on_store ◌>>=◌
  check_update device_id = do
    job ← on_store (get_pending_for_device device_id)
    pure (check_response job)

  -- The response is that the acknowledgement is accepted.
  unfoldable pub ack_update : String → AckUpdateRequest → Method OtaServer Status Bool
  unfolding on_store ◌>>=◌
  ack_update now req = do
    on_store (
        update_status now req.update_job_id (if req.success then completed else failed)
          (given req.error_message))
    pure true

  unfoldable pub dispatch_update :
      String → String → DispatchUpdateRequest → Method OtaServer Status UpdateJob
  unfolding on_store on_dispatcher ◌>>=◌
  dispatch_update id now req = do
    job ← on_store (create_job id now (new_job req))
    on_dispatcher (dispatch broadcast req.device_id (command req job))
    pure (record_to_proto job)

  unfoldable pub list_update_jobs :
      ListUpdateJobsRequest → Method OtaServer Status (List UpdateJob × String)
  unfolding on_store ◌>>=◌
  list_update_jobs req = do
    found ← on_store (list_for_device req.device_id (page_limit req.limit) (given req.cursor))
    pure (map record_to_proto found.0, unwrap_or found.1 "")
