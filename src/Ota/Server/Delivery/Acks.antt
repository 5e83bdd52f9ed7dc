-- ===== src/Ota/Server/Delivery/Acks.antt =====
-- What an acknowledgement (ack_update) does to its job and to the device of the job.
use robot_fleet.Prelude.{
  ◌≡◌, refl, ◌∙◌, String, true, false, none, some, [], arith, length, if◌then◌else◌, ok,
}
use robot_fleet.Sql.Table.{find, contains, modify, contains-modify, contains-is_some, count-eq-zero}
use robot_fleet.Ota.Store.{
  JobStatus, get_pending_for_device, JobRow, Jobs, job_id, is_active_for, completed, failed,
  with_status, create_job, update_status,
}
use robot_fleet.Ota.Store.Active.{active, active-final, IsValid, is_final}
use robot_fleet.Ota.Store.Jobs.{new_record, none_left, create_job_result}
use robot_fleet.Ota.Dispatcher.{Broadcast}
use robot_fleet.Ota.Server.{
  OtaServer, DispatchUpdateRequest, AckUpdateRequest, check_response, given, new_job, check_update,
  ack_update,
}

module _ (broadcast : Broadcast) where
  abbrev pub outcome : AckUpdateRequest → JobStatus
  outcome ack = if ack.success then completed else failed

  pub outcome-is_final : (ack : AckUpdateRequest) → is_final (outcome ack) ≡ true
  outcome-is_final ack = ground arith

  abbrev pub acked : String → AckUpdateRequest → Jobs → Jobs
  acked now ack rows =
      modify job_id ack.update_job_id (with_status now (outcome ack) (given ack.error_message)) rows

  pub ack_live :
      (now : String) (ack : AckUpdateRequest) (r : JobRow) (s : OtaServer broadcast)
      → s.store.faults ≡ []
      → find job_id ack.update_job_id s.store.tables ≡ some r
      → ack_update broadcast now ack s
        ≡ (ok true, record s { store = record s.store { tables = acked now ack s.store.tables } })
  unfolding ack_update update_status
  ack_live now ack r s works h = ground (
    arith,
    count-eq-zero job_id ack.update_job_id s.store.tables,
    contains-is_some job_id ack.update_job_id s.store.tables,
  )

  pub check_free :
      (d : String) (s : OtaServer broadcast)
      → s.store.faults ≡ []
      → length (active d s.store.tables) ≡ 0
      → (check_update broadcast d s).0 ≡ ok (check_response none)
  unfolding check_update get_pending_for_device
  check_free d s works free = ground (arith, none_left (active d s.store.tables) free)

  -- An acknowledgement, of a success or of a failure, is accepted for an active job and frees its
  -- device: a check finds no update any more, and the job of the next dispatch is stored, if the
  -- table is valid, its id is new and nothing fails.
  pub ack_frees :
      (now id' now' : String) (ack : AckUpdateRequest) (r : JobRow) (req : DispatchUpdateRequest)
      (s : OtaServer broadcast)
      → s.store.faults ≡ []
      → IsValid s.store.tables
      → find job_id ack.update_job_id s.store.tables ≡ some r
      → is_active_for req.device_id r ≡ true
      → contains job_id id' s.store.tables ≡ false
      → let q = ack_update broadcast now ack s in
        (q.0 ≡ ok true)
        × ((check_update broadcast req.device_id q.1).0 ≡ ok (check_response none))
        × ((create_job id' now' (new_job req) q.1.store).0 ≡ ok (new_record id' now' (new_job req)))
  ack_frees now id' now' ack r req s works v h act fresh =
      let rows = acked now ack s.store.tables in
      let free =
        active-final req.device_id ack.update_job_id now (outcome ack) (given ack.error_message)
          s.store.tables r (outcome-is_final ack) v h act in
      let kept =
        contains-modify job_id job_id (with_status now (outcome ack) (given ack.error_message))
          (λ x. refl) ack.update_job_id id' s.store.tables in
      rw (ack_live now ack r s works h) (
        refl,
        check_free req.device_id (record s { store = record s.store { tables = rows } }) works free,
        ground (
          arith,
          free,
          create_job_result id' now' (new_job req) (record s.store { tables = rows }) works
              (kept ∙ fresh) (omega arith),
        ),
      )
