-- ===== src/Ota/Server/Concurrent.antt =====
-- Dispatches that overlap. The handler of a dispatch stores the job and sends the command in two steps, with
-- the store's mutex and the dispatcher's lock held for one each; other handlers run in between.
pub mod Orders
pub mod Once
pub mod Refinement
use robot_fleet.Prelude.{
  ℕ, suc, ◌+◌, ◌≤◌, ◌≡◌, refl, ap, String, Bool, true, false, Option, some, List, [], ◌∷◌, ◌++◌,
  arith, ◌==◌, eq_refl, eq_iff, if◌then◌else◌, Result, ok, err, All, inl, inr,
}
use robot_fleet.Sql.{Conn}
use robot_fleet.Sql.Table.{find, contains, modify, find-append, find-modify, find-some-contains}
use robot_fleet.Ota.Error.{Error}
use robot_fleet.Ota.Store.{
  JobStatus, NewJob, JobRecord, JobRow, Jobs, job_id, new_row, row_to_record, with_status,
  create_job,
}
use robot_fleet.Ota.Store.Active.{IsValid, create_job-IsValid, tables-create_job}
use robot_fleet.Ota.Dispatcher.{UpdateCommand, Broadcast, dispatch}
use robot_fleet.Ota.Server.{OtaServer, DispatchUpdateRequest, new_job, command}
use robot_fleet.Ota.Server.Delivery.Exclusive.{
  Rpc, dispatches, watches, checks, acks, lists, perform, perform-IsValid,
}

-- a command and the device that it is for
abbrev pub Order : Type 0
Order = String × UpdateCommand

abbrev pub is_dispatch : Rpc → Bool
is_dispatch (dispatches id now req) = true
is_dispatch (watches device_id) = false
is_dispatch (checks device_id) = false
is_dispatch (acks now req) = false
is_dispatch (lists req) = false

module _ (broadcast : Broadcast) where
  -- the server, the commands whose job is stored and whose handler still runs, and those that were sent
  pub record System : Type 0 where
    pub server : OtaServer broadcast
    pub in_flight : List Order
    pub sent : List Order

  abbrev pub store_after : String → String → DispatchUpdateRequest → System → Conn Jobs
  store_after id now req s = (create_job id now (new_job req) s.server.store).1

  abbrev pub created : String → String → DispatchUpdateRequest → JobRecord → System → System
  created id now req job s = record s {
    server = record s.server { store = store_after id now req s };
    in_flight = (req.device_id, command req job) ∷ s.in_flight;
  }

  abbrev pub dispatched : List Order → List Order → Order → System → System
  dispatched others sent o s = record {
    server = record s.server { dispatcher = (dispatch broadcast o.0 o.1 s.server.dispatcher).1 };
    in_flight = others;
    sent = sent;
  }

  -- One step of some handler. A handler may be cancelled once its job is stored.
  pub data Step (s : System) : System → Type 0 where
    creates :
        (id now : String) (req : DispatchUpdateRequest) (job : JobRecord)
        → (create_job id now (new_job req) s.server.store).0 ≡ ok job
        → Step s (created id now req job s)
    refuses :
        (id now : String) (req : DispatchUpdateRequest) (e : Error)
        → (create_job id now (new_job req) s.server.store).0 ≡ err e
        → Step s (record s { server = record s.server { store = store_after id now req s } })
    gives_up :
        (before after : List Order) (o : Order)
        → s.in_flight ≡ before ++ o ∷ after
        → Step s (record s { in_flight = before ++ after })
    sends :
        (before after : List Order) (o : Order) (n : ℕ)
        → s.in_flight ≡ before ++ o ∷ after
        → (dispatch broadcast o.0 o.1 s.server.dispatcher).0 ≡ ok n
        → Step s (dispatched (before ++ after) (o ∷ s.sent) o s)
    misses :
        (before after : List Order) (o : Order) (e : Error)
        → s.in_flight ≡ before ++ o ∷ after
        → (dispatch broadcast o.0 o.1 s.server.dispatcher).0 ≡ err e
        → Step s (dispatched (before ++ after) s.sent o s)
    calls :
        (rpc : Rpc)
        → is_dispatch rpc ≡ false
        → Step s (record s { server = perform broadcast rpc s.server })

  pub data Reach (s : System) : System → Type 0 where
    here : Reach s s
    next : {t u : System} → Reach s t → Step t u → Reach s u

-- how many of the orders are for a job
abbrev pub times : String → List Order → ℕ
times id [] = 0
times id ((d, cmd) ∷ os) =
    let rest = times id os in if cmd.update_job_id == id then suc rest else rest

-- The store has the job of the command, for the device that the command is for.
abbrev pub HasJob : Jobs → Order → Type 0
HasJob rows (d, cmd) =
    (r : JobRow) × (find job_id cmd.update_job_id rows ≡ some r)
    × (r.device_id ≡ d)
    × (r.target_version ≡ cmd.target_version)
