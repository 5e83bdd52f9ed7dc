-- ===== src/Ota/Server/Concurrent/Once.antt =====
-- What overlapping dispatches can do to a robot: no command twice, and none without its job.
use robot_fleet.Prelude.{
  ◌+◌, ◌≤◌, ◌≡◌, refl, ap, sym, String, false, List, [], ◌∷◌, ◌++◌, arith, eq_refl, eq_iff,
  if◌then◌else◌, ok, All,
}
use robot_fleet.Sql.Table.{find-append}
use robot_fleet.Ota.Store.{completed, failed, JobRecord, Jobs, job_id, new_row, create_job}
use robot_fleet.Ota.Store.Active.{IsValid, create_job-IsValid}
use robot_fleet.Ota.Dispatcher.{Broadcast}
use robot_fleet.Ota.Server.{OtaServer, DispatchUpdateRequest, given, new_job}
use robot_fleet.Ota.Server.Delivery.Exclusive.{
  Rpc, dispatches, watches, checks, acks, lists, perform, perform-IsValid, rows-watch_updates,
  rows-check_update, rows-list_update_jobs, store-ack_update,
}
use robot_fleet.Ota.Server.Concurrent.{
  Order, is_dispatch, System, store_after, created, Step, creates, refuses, gives_up, sends, misses,
  calls, Reach, here, next, times, HasJob,
}
use robot_fleet.Ota.Server.Concurrent.Orders.{
  times-append, All-remove, times-fresh, All-map, create_job_done, HasJob-create_job,
  HasJob-update_status,
}

module _ (broadcast : Broadcast) where
  HasJob-perform :
      (rpc : Rpc) (s : OtaServer broadcast) (o : Order)
      → is_dispatch rpc ≡ false
      → HasJob s.store.tables o
      → HasJob (perform broadcast rpc s).store.tables o
  unfolding perform
  HasJob-perform (watches d) s o other h = rw (rows-watch_updates broadcast d s) h
  HasJob-perform (checks d) s o other h = rw (rows-check_update broadcast d s) h
  HasJob-perform (lists req) s o other h = rw (rows-list_update_jobs broadcast req s) h
  HasJob-perform (dispatches id now req) s o other h = cc
  HasJob-perform (acks now req) s o other h = rw (store-ack_update broadcast now req s) (
      HasJob-update_status now req.update_job_id (if req.success then completed else failed)
        (given req.error_message) s.store o h)

  record IsSound (s : System broadcast) : Type 0 where
    valid : IsValid s.server.store.tables
    once : (id : String) → times id s.in_flight + times id s.sent ≤ 1
    flying : All (HasJob s.server.store.tables) s.in_flight
    backed : All (HasJob s.server.store.tables) s.sent

  module _ (id now : String) (req : DispatchUpdateRequest) (s : System broadcast)
      (v : IsSound s) where
    abbrev rows : Jobs
    rows = s.server.store.tables

    abbrev later : Jobs
    later = (store_after broadcast id now req s).tables

    kept : (os : List Order) → All (HasJob rows) os → All (HasJob later) os
    kept os = All-map (HasJob-create_job id now (new_job req) s.server.store) os

    created-IsSound :
        (job : JobRecord)
        → (create_job id now (new_job req) s.server.store).0 ≡ ok job
        → IsSound (created broadcast id now req job s)
    created-IsSound job h =
        let (same, fresh, more) = create_job_done id now (new_job req) s.server.store job h in
        let own : job.id ≡ id = ap (λ (r : JobRecord). r.id) same in
        let version : job.target_version ≡ req.target_version =
          ap (λ (r : JobRecord). r.target_version) same in
        let unused =
          λ (os : List Order) (a : All (HasJob rows) os). times-fresh id rows os fresh a in
        record {
          valid = create_job-IsValid id now (new_job req) s.server.store v.valid;
          once = λ k. ground (
            arith,
            v.once k,
            own,
            eq_iff job.id k,
            unused s.in_flight v.flying,
            unused s.sent v.backed,
          );
          flying = (
            (
              new_row id now (new_job req),
              rw (own, more)
                  (ground (
                    arith,
                    fresh,
                    eq_refl id,
                    find-append job_id id (new_row id now (new_job req)) rows,
                  )),
              refl,
              sym version,
            ),
            kept s.in_flight v.flying,
          );
          backed = kept s.sent v.backed;
        }

  module _ (before after : List Order) (o : Order) (s : System broadcast)
      (split : s.in_flight ≡ before ++ o ∷ after) (v : IsSound s) where
    rest : HasJob s.server.store.tables o × All (HasJob s.server.store.tables) (before ++ after)
    rest = All-remove (HasJob s.server.store.tables) before after o (rw split at v.flying)

    fewer : (id : String) → times id (before ++ after) + times id (o ∷ s.sent) ≤ 1
    fewer id = ground (arith, v.once id, ap (times id) split, times-append id before after o)

  Step-IsSound : {s t : System broadcast} → Step broadcast s t → IsSound s → IsSound t
  Step-IsSound {s = s} (creates id now req job h) v = created-IsSound id now req s v job h
  Step-IsSound {s = s} (refuses id now req e h) v = record {
    valid = create_job-IsValid id now (new_job req) s.server.store v.valid;
    once = v.once;
    flying = kept id now req s v s.in_flight v.flying;
    backed = kept id now req s v s.sent v.backed;
  }
  Step-IsSound {s = s} (gives_up before after o h) v = record {
    valid = v.valid;
    once = λ id. ground (arith, fewer before after o s h v id);
    flying = (rest before after o s h v).1;
    backed = v.backed;
  }
  Step-IsSound {s = s} (sends before after o n h k) v = record {
    valid = v.valid;
    once = fewer before after o s h v;
    flying = (rest before after o s h v).1;
    backed = ((rest before after o s h v).0, v.backed);
  }
  Step-IsSound {s = s} (misses before after o e h k) v = record {
    valid = v.valid;
    once = λ id. ground (arith, fewer before after o s h v id);
    flying = (rest before after o s h v).1;
    backed = v.backed;
  }
  Step-IsSound {s = s} (calls rpc h) v = record {
    valid = perform-IsValid broadcast rpc s.server v.valid;
    once = v.once;
    flying = All-map (λ o. HasJob-perform rpc s.server o h) s.in_flight v.flying;
    backed = All-map (λ o. HasJob-perform rpc s.server o h) s.sent v.backed;
  }

  Reach-IsSound : {s t : System broadcast} → Reach broadcast s t → IsSound s → IsSound t
  Reach-IsSound here v = v
  Reach-IsSound (next r step) v = Step-IsSound step (Reach-IsSound r v)

  -- However many dispatches overlap, with any other calls in between, any statement failing and any handler
  -- cancelled at any point: the command of a job is sent at most once, and not while a handler still holds
  -- it; each command that was sent is for the device of a job that the store has, with the version of
  -- the job; and no device has two active jobs at a time. The ids of the jobs differ and no device has
  -- two active jobs at the start.
  pub sent_once :
      (server : OtaServer broadcast) (s : System broadcast)
      → IsValid server.store.tables
      → Reach broadcast (record { server = server; in_flight = []; sent = [] }) s
      → ((id : String) → times id s.in_flight + times id s.sent ≤ 1)
        × All (HasJob s.server.store.tables) s.sent
        × IsValid s.server.store.tables
  sent_once server s valid r =
      let v =
        Reach-IsSound r
          (record { valid = valid; once = λ id. omega arith; flying = tt; backed = tt }) in
      (v.once, v.backed, v.valid)
