-- ===== src/Agent/Update/Cycle.antt =====
-- An update's way from the operator through the update service to the robot and back.
use robot_fleet.Prelude.{
  suc, ◌≡◌, refl, String, true, false, none, some, List, [], ◌∷◌, ◌++◌, map, arith, eq_refl, length,
  Result, ok, err,
}
use robot_fleet.Sql.Table.{find, contains, find-append, find-modify}
use robot_fleet.Ota.Store.{JobRow, Jobs, job_id, new_row, completed, failed, with_status}
use robot_fleet.Ota.Store.Active.{active, active-final, IsValid, IsValid-insert}
use robot_fleet.Ota.Store.Jobs.{new_record}
use robot_fleet.Ota.Dispatcher as Dispatcher
use robot_fleet.Ota.Dispatcher.{Broadcast, or_channel, sender_of, subscribe}
use robot_fleet.Ota.Server as Service
use robot_fleet.Ota.Server.{
  OtaServer, DispatchUpdateRequest, check_response, given, new_job, command, watch_updates,
  check_update, ack_update, dispatch_update,
}
use robot_fleet.Ota.Server.Delivery.{stored, own_channel, dispatch_live, sender_of-set_sender}
use robot_fleet.Ota.Server.Delivery.Acks.{ack_live, check_free, outcome-is_final, outcome, acked}
use robot_fleet.Agent.Error.{Error, display}
use robot_fleet.Agent.Update.{
  Machine, UpdateCommand, AckUpdateRequest, Installed, acknowledgement, apply_update, run_stream,
}

-- the messages as the other side reads them
abbrev pub command_read : Dispatcher.UpdateCommand → UpdateCommand
command_read c = record {
  update_job_id = c.update_job_id;
  target_version = c.target_version;
  artifact_url = c.artifact_url;
  sha256 = c.sha256;
}

abbrev pub ack_read : AckUpdateRequest → Service.AckUpdateRequest
ack_read a = record {
  device_id = a.device_id;
  update_job_id = a.update_job_id;
  success = a.success;
  error_message = a.error_message;
}

-- the job's row once the robot has told what came of the update
abbrev pub told : String → Result Error (Unit {0}) → JobRow → JobRow
told now (ok u) r = with_status now completed none r
told now (err e) r = with_status now failed (given (display e)) r

module _ (broadcast : Broadcast) (m : Machine) (id now later : String)
    (req : DispatchUpdateRequest) where
  abbrev pub job : JobRow
  job = new_row id now (new_job req)

  abbrev pub received : UpdateCommand
  received = command_read (command req (new_record id now (new_job req)))

  abbrev answer : Result Error (Unit {0}) → Service.AckUpdateRequest
  answer r = ack_read (acknowledgement m req.device_id received r)

  find-stored :
      (rows : Jobs) → contains job_id id rows ≡ false → find job_id id (rows ++ job ∷ []) ≡ some job
  find-stored rows fresh = ground (arith, eq_refl id, fresh, find-append job_id id job rows)

  find-acked :
      (r : Result Error (Unit {0})) (rows : Jobs)
      → find job_id id rows ≡ some job
      → find job_id id (acked broadcast later (answer r) rows) ≡ some (told later r job)
  find-acked (ok u) rows h = ground (
    arith,
    h,
    eq_refl id,
    find-modify job_id id id (with_status later completed none) rows (λ x. refl),
  )
  find-acked (err e) rows h = ground (
    arith,
    h,
    eq_refl id,
    find-modify job_id id id (with_status later failed (given (display e))) rows (λ x. refl),
  )

  answer_job : (r : Result Error (Unit {0})) → (answer r).update_job_id ≡ id
  answer_job (ok u) = refl
  answer_job (err e) = refl

  abbrev Closed : Result Error (Unit {0}) → OtaServer broadcast → Type 0
  Closed r s =
      ((ack_update broadcast later (answer r) s).0 ≡ ok true)
      × ((check_update broadcast req.device_id (ack_update broadcast later (answer r) s).1).0
          ≡ ok (check_response none))
      × (find job_id id (ack_update broadcast later (answer r) s).1.store.tables
          ≡ some (told later r job))

  answered :
      (r : Result Error (Unit {0})) (s : OtaServer broadcast)
      → s.store.faults ≡ []
      → IsValid s.store.tables
      → find job_id id s.store.tables ≡ some job
      → Closed r s
  answered r s works v h =
      let found : find job_id (answer r).update_job_id s.store.tables ≡ some job =
        rw (answer_job r) h in
      let rows = acked broadcast later (answer r) s.store.tables in
      let free =
        active-final req.device_id (answer r).update_job_id later (outcome broadcast (answer r))
          (given (answer r).error_message) s.store.tables job
          (outcome-is_final broadcast (answer r)) v found (ground (arith, eq_refl req.device_id)) in
      rw (ack_live broadcast later (answer r) job s works found) (
        refl,
        check_free broadcast req.device_id (record s { store = record s.store { tables = rows } })
            works free,
        find-acked r s.store.tables h,
      )

  cycle_steps :
      ((b : broadcast.Sender)
        → broadcast.receiver_count (broadcast.subscribe b).1 ≡ suc (broadcast.receiver_count b))
      → (s : OtaServer broadcast) (installed : Installed m) → s.store.faults ≡ []
      → IsValid s.store.tables
      → contains job_id id s.store.tables ≡ false
      → length (active req.device_id s.store.tables) ≡ 0
      → let q = dispatch_update broadcast id now req (watch_updates broadcast req.device_id s).1 in
        let applied = (apply_update m "" "" installed).0 in
        let robot = run_stream m req.device_id ((ok received, ok tt) ∷ []) installed in
        let ack = acknowledgement m req.device_id received applied in
        let u = ack_update broadcast later (ack_read ack) q.1 in
        (sender_of broadcast req.device_id q.1.dispatcher
          ≡ some (
              broadcast.send
                (command req (new_record id now (new_job req)))
                (broadcast.subscribe (own_channel broadcast req.device_id s)).1))
        × (robot.1.0 ≡ ack ∷ [])
        × (u.0 ≡ ok true)
        × ((check_update broadcast req.device_id u.1).0 ≡ ok (check_response none))
        × (find job_id id u.1.store.tables ≡ some (told later applied job))
  unfolding watch_updates subscribe stored run_stream
  cycle_steps counts s installed works v fresh free =
      let t : OtaServer broadcast = (watch_updates broadcast req.device_id s).1 in
      let b =
        (broadcast.subscribe
          (or_channel broadcast (sender_of broadcast req.device_id s.dispatcher))).1 in
      let live =
        dispatch_live broadcast id now req t works fresh free b
          (sender_of-set_sender broadcast req.device_id b s.dispatcher)
          (omega (
            arith,
            counts (or_channel broadcast (sender_of broadcast req.device_id s.dispatcher)),
          )) in
      let sent =
        sender_of-set_sender broadcast req.device_id
          (broadcast.send (command req (new_record id now (new_job req))) b) t.dispatcher in
      let applied = (apply_update m "" "" installed).0 in
      let closed =
        λ (d : OtaServer broadcast)
            (same : d.store ≡ stored broadcast id now req t works fresh free).
          answered applied d (rw same works)
            (rw same (IsValid-insert id now (new_job req) s.store.tables v free fresh))
            (rw same (find-stored s.store.tables fresh)) in
      rw live
        (let (accepted, none_left, row) = closed _ refl in (sent, refl, accepted, none_left, row))

  -- what the robot's stream yields, with every acknowledgement of it sent
  abbrev pub arriving :
      List Dispatcher.UpdateCommand → List (Result Error UpdateCommand × Result Error (Unit {0}))
  arriving cmds = map (λ c. (ok (command_read c), ok tt)) cmds

  -- A whole update, from a dispatch to a robot that watches to the robot's acknowledgement: the receiver
  -- that the robot was given yields one command, without an artifact and without a checksum; the robot's
  -- stream of what it yields is acknowledged once; the acknowledgement is accepted, no update is left
  -- for the robot, and its job is completed if the update was applied and failed, with the error's
  -- text, if it was not. It holds in a valid table, for a robot without an active job and an id that is
  -- new, if nothing fails in the service, a receiver is counted once it has subscribed, and it yields
  -- what is sent on its channel after that.
  pub update_cycle :
      (yields : broadcast.Receiver → broadcast.Sender → List Dispatcher.UpdateCommand)
      → ((b : broadcast.Sender)
          → broadcast.receiver_count (broadcast.subscribe b).1 ≡ suc (broadcast.receiver_count b))
      → ((b : broadcast.Sender) (cmd : Dispatcher.UpdateCommand)
          → yields (broadcast.subscribe b).0 (broadcast.send cmd (broadcast.subscribe b).1)
            ≡ cmd ∷ [])
      → (s : OtaServer broadcast) (installed : Installed m) → s.store.faults ≡ []
      → IsValid s.store.tables
      → contains job_id id s.store.tables ≡ false
      → length (active req.device_id s.store.tables) ≡ 0
      → let watched = watch_updates broadcast req.device_id s in
        let q = dispatch_update broadcast id now req watched.1 in
        let applied = (apply_update m "" "" installed).0 in
        let ack = acknowledgement m req.device_id received applied in
        let u = ack_update broadcast later (ack_read ack) q.1 in
        ((receiver : broadcast.Receiver) × (channel : broadcast.Sender) × (watched.0 ≡ ok receiver)
          × (sender_of broadcast req.device_id q.1.dispatcher ≡ some channel)
          × (yields receiver channel ≡ command req (new_record id now (new_job req)) ∷ [])
          × ((run_stream m req.device_id (arriving (yields receiver channel)) installed).1.0
              ≡ ack ∷ []))
        × (u.0 ≡ ok true)
        × ((check_update broadcast req.device_id u.1).0 ≡ ok (check_response none))
        × (find job_id id u.1.store.tables ≡ some (told later applied job))
  unfolding watch_updates subscribe
  update_cycle yields counts delivers s installed works v fresh free =
      let (sent, once, accepted, none_left, row) =
        cycle_steps counts s installed works v fresh free in
      let own = broadcast.subscribe (own_channel broadcast req.device_id s) in
      let cmd = command req (new_record id now (new_job req)) in
      let got = delivers (own_channel broadcast req.device_id s) cmd in
      ((own.0, broadcast.send cmd own.1, refl, sent, got, rw got once), accepted, none_left, row)
