-- ===== src/Ota/Server/Delivery.antt =====
-- An update's way from the operator to the robot: dispatch, check and acknowledgement.
pub mod Exclusive
pub mod Acks
use robot_fleet.Prelude.{
  ℕ, zero, suc, ◌+◌, ◌^◌, ◌<◌, ◌≡◌, refl, ◌∙◌, String, Bool, true, false, Option, none, some, List,
  [], ◌∷◌, ◌++◌, arith, eq_iff, eq_refl, length, if◌then◌else◌, ltb, nat_eq, ◌==◌, Result, ok, err,
  unwrap_or,
}
use robot_fleet.Prelude.Text.{format}
use robot_fleet.Prelude.Int.{to_u64, to_i64}
use robot_fleet.Grpc.{Status, status, already_exists, unavailable}
use robot_fleet.Sql.{Conn}
use robot_fleet.Sql.Table.{
  find, contains, modify, contains-modify, contains-append, contains-is_some, count-eq-zero,
  find-append,
}
use robot_fleet.Ota.Store.{
  JobStatus, get_pending_for_device, JobRow, Jobs, job_id, is_active_for, new_row, completed,
  failed, with_status, create_job, update_status,
}
use robot_fleet.Ota.Store.Active.{active, active-new_row, active-final, IsValid, is_final}
use robot_fleet.Ota.Store.Jobs.{new_record, none_left, create_job_result, get_pending-create_job}
use robot_fleet.Ota.Dispatcher.{
  UpdateCommand, Broadcast, Senders, or_channel, sender_of, set_sender, subscribe, dispatch,
}
use robot_fleet.Ota.Server.{
  OtaServer, DispatchUpdateRequest, AckUpdateRequest, UpdateJob, check_response, record_to_proto,
  given, new_job, command, watch_updates, check_update, ack_update, dispatch_update,
}

abbrev pub job_of : String → String → DispatchUpdateRequest → UpdateJob
job_of id now req = record_to_proto (new_record id now (new_job req))

module _ (broadcast : Broadcast) where
  pub sender_of-set_sender :
      (d : String) (s : broadcast.Sender) (m : Senders broadcast)
      → sender_of broadcast d (set_sender broadcast d s m) ≡ some s
  unfolding sender_of set_sender
  sender_of-set_sender d s [] = ground (arith, eq_refl d)
  sender_of-set_sender d s ((k, t) ∷ m) = ground (arith, eq_iff k d, sender_of-set_sender d s m)

  module _ (id now : String) (req : DispatchUpdateRequest) (s : OtaServer broadcast)
      (works : s.store.faults ≡ []) (fresh : contains job_id id s.store.tables ≡ false)
      (free : length (active req.device_id s.store.tables) ≡ 0) where
    unfoldable pub stored : Conn Jobs
    stored = record s.store { tables = s.store.tables ++ new_row id now (new_job req) ∷ [] }

    created :
        create_job id now (new_job req) s.store ≡ (ok (new_record id now (new_job req)), stored)
    unfolding stored
    created =
        ground (arith, create_job_result id now (new_job req) s.store works fresh (omega arith))

    -- A robot that listens is sent the command of the new job, with no artifact and no checksum.
    pub dispatch_live :
        (sender : broadcast.Sender)
        → sender_of broadcast req.device_id s.dispatcher ≡ some sender
        → 0 < broadcast.receiver_count sender
        → dispatch_update broadcast id now req s ≡ (
          ok (job_of id now req),
          record s {
            store = stored;
            dispatcher =
                set_sender broadcast req.device_id
                  (broadcast.send (command req (new_record id now (new_job req))) sender)
                  s.dispatcher;
          },
        )
    unfolding dispatch_update dispatch
    dispatch_live sender h k = ground (arith, created)

    dispatch_unheard :
        sender_of broadcast req.device_id s.dispatcher ≡ none
        → dispatch_update broadcast id now req s ≡ (
          err (status unavailable (format ("device " ∷ req.device_id ∷ " is not connected" ∷ []))),
          record s { store = stored },
        )
    unfolding dispatch_update dispatch
    dispatch_unheard h = ground (arith, created)

    active-stored : length (active req.device_id stored.tables) ≡ 1
    unfolding stored
    active-stored = ground (
      arith,
      eq_refl req.device_id,
      active-new_row req.device_id id now (new_job req) s.store.tables,
      none_left (active req.device_id s.store.tables) free,
    )

    check_stored :
        (t : OtaServer broadcast)
        → t.store ≡ stored
        → (check_update broadcast req.device_id t).0
          ≡ ok (check_response (some (new_record id now (new_job req))))
    unfolding check_update
    check_stored t h = ground (
      arith,
      created,
      eq_refl req.device_id,
      get_pending-create_job req.device_id id now (new_job req) s.store works fresh (omega arith)
          free,
    )

  blocked :
      (id now : String) (req : DispatchUpdateRequest) (s : OtaServer broadcast)
      → s.store.faults ≡ []
      → length (active req.device_id s.store.tables) ≡ 1
      → dispatch_update broadcast id now req s
        ≡ (err (status already_exists "device already has an active job"), s)
  unfolding dispatch_update create_job
  blocked id now req s works one = ground arith

  -- the channel that a robot subscribes to when it watches
  abbrev pub own_channel : String → OtaServer broadcast → broadcast.Sender
  own_channel device_id s = or_channel broadcast (sender_of broadcast device_id s.dispatcher)

  -- A robot that watches is sent the command of every accepted dispatch: the answer is the new job,
  -- the receiver that the robot was given yields the command of that very job and nothing else, and a
  -- check from then on names the job too. It holds for a device without an active job and an id that is
  -- new, if nothing fails, a receiver is counted once it has subscribed, and it yields what is sent on
  -- its channel after that.
  pub dispatch_delivers :
      (yields : broadcast.Receiver → broadcast.Sender → List UpdateCommand)
      → ((b : broadcast.Sender)
          → broadcast.receiver_count (broadcast.subscribe b).1 ≡ suc (broadcast.receiver_count b))
      → ((b : broadcast.Sender) (cmd : UpdateCommand)
          → yields (broadcast.subscribe b).0 (broadcast.send cmd (broadcast.subscribe b).1)
            ≡ cmd ∷ [])
      → (id now : String) (req : DispatchUpdateRequest) (s : OtaServer broadcast)
      → s.store.faults ≡ []
      → contains job_id id s.store.tables ≡ false
      → length (active req.device_id s.store.tables) ≡ 0
      → let watched = watch_updates broadcast req.device_id s in
        let q = dispatch_update broadcast id now req watched.1 in
        (q.0 ≡ ok (job_of id now req))
        × ((receiver : broadcast.Receiver) × (channel : broadcast.Sender) × (watched.0
              ≡ ok receiver)
            × (sender_of broadcast req.device_id q.1.dispatcher ≡ some channel)
            × (yields receiver channel ≡ command req (new_record id now (new_job req)) ∷ []))
        × ((check_update broadcast req.device_id q.1).0
            ≡ ok (check_response (some (new_record id now (new_job req)))))
  unfolding watch_updates subscribe
  dispatch_delivers yields counts delivers id now req s works fresh free =
      let t : OtaServer broadcast = (watch_updates broadcast req.device_id s).1 in
      let own = broadcast.subscribe (own_channel req.device_id s) in
      let cmd = command req (new_record id now (new_job req)) in
      let live =
        dispatch_live id now req t works fresh free own.1
          (sender_of-set_sender req.device_id own.1 s.dispatcher)
          (omega (arith, counts (own_channel req.device_id s))) in
      rw live (
        refl,
        (
          own.0,
          broadcast.send cmd own.1,
          refl,
          sender_of-set_sender req.device_id (broadcast.send cmd own.1) t.dispatcher,
          delivers (own_channel req.device_id s) cmd,
        ),
        check_stored id now req t works fresh free _ refl,
      )

  -- A dispatch to a robot that never listened fails with UNAVAILABLE, and yet its job is stored: a
  -- check names it, and a further dispatch to the device is refused with ALREADY_EXISTS. The device
  -- has no active job before, the id is new and nothing else fails.
  pub unheard_dispatch_blocks :
      (id now id' now' : String) (req req' : DispatchUpdateRequest) (s : OtaServer broadcast)
      → s.store.faults ≡ []
      → contains job_id id s.store.tables ≡ false
      → length (active req.device_id s.store.tables) ≡ 0
      → sender_of broadcast req.device_id s.dispatcher ≡ none
      → req'.device_id ≡ req.device_id
      → let q = dispatch_update broadcast id now req s in
        (q.0
          ≡ err
              (status unavailable (format ("device " ∷ req.device_id ∷ " is not connected" ∷ []))))
        × ((check_update broadcast req.device_id q.1).0
            ≡ ok (check_response (some (new_record id now (new_job req)))))
        × (dispatch_update broadcast id' now' req' q.1
            ≡ (err (status already_exists "device already has an active job"), q.1))
  unfolding stored
  unheard_dispatch_blocks id now id' now' req req' s works fresh free unheard same =
      rw (dispatch_unheard id now req s works fresh free unheard) (
        refl,
        check_stored id now req s works fresh free _ refl,
        blocked id' now' req' _ works (rw same (active-stored id now req s works fresh free)),
      )
