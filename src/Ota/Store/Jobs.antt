-- ===== src/Ota/Store/Jobs.antt =====
-- What the store of jobs answers.
use robot_fleet.Prelude.{
  ◌<◌, ◌^◌, ◌≡◌, refl, ap, String, false, none, some, List, [], ◌∷◌, ◌++◌, arith, eq_iff, eq_refl,
  length, if◌then◌else◌, ltb, ok, err, ◌==◌,
}
use robot_fleet.Prelude.Int.{to_u64-to_i64}
use robot_fleet.Sql.{Conn}
use robot_fleet.Sql.Table.{contains, find-append}
use robot_fleet.Ota.Error.{already_pending}
use robot_fleet.Ota.Store.{
  JobStatus, pending, in_progress, completed, failed, as_str, from_str, NewJob, JobRecord, Jobs,
  job_id, row_to_record, new_row, create_job, get_pending_for_device,
}
use robot_fleet.Ota.Store.Active.{active, active-new_row}

from_str-reads : (t : String) (s : JobStatus) → from_str t ≡ some s → t ≡ as_str s
from_str-reads t s h =
    ground
      (arith, eq_iff t "pending", eq_iff t "in_progress", eq_iff t "completed", eq_iff t "failed")

-- The words for a job's status are read back as what was written, and no other text is read as a status.
pub from_str-as_str :
    (s : JobStatus) (t : String)
    → (from_str (as_str s) ≡ some s) × (from_str t ≡ some s → t ≡ as_str s)
from_str-as_str pending t = (refl, from_str-reads t pending)
from_str-as_str in_progress t = (refl, from_str-reads t in_progress)
from_str-as_str completed t = (refl, from_str-reads t completed)
from_str-as_str failed t = (refl, from_str-reads t failed)

abbrev pub new_record : String → String → NewJob → JobRecord
new_record id now job = record {
  id = id;
  device_id = job.device_id;
  target_version = job.target_version;
  artifact_url = job.artifact_url;
  sha256 = job.sha256;
  size_bytes = job.size_bytes;
  status = pending;
  error_message = none;
  created_at = now;
}

row_to_record-new_row :
    (id now : String) (job : NewJob)
    → job.size_bytes < 2 ^ 64
    → row_to_record (new_row id now job) ≡ new_record id now job
row_to_record-new_row id now job h =
    ap (λ n. record (new_record id now job) { size_bytes = n }) (to_u64-to_i64 job.size_bytes h)

-- A device that has no active job gets one, and the record that is returned is what was asked for,
-- its 64-bit size included; a device that has one is refused and nothing changes. The id is new and
-- nothing fails.
pub create_job_result :
    (id now : String) (job : NewJob) (c : Conn Jobs)
    → c.faults ≡ []
    → contains job_id id c.tables ≡ false
    → job.size_bytes < 2 ^ 64
    → create_job id now job c ≡ (
        if ltb 0 (length (active job.device_id c.tables)) then (err already_pending, c) else (
          ok (new_record id now job),
          record c { tables = c.tables ++ new_row id now job ∷ [] },
        ))
unfolding create_job
create_job_result id now job c works fresh h = ground (
  arith,
  row_to_record-new_row id now job h,
  find-append job_id id (new_row id now job) c.tables,
  eq_refl id,
)

pub none_left : {A : Type 0} (xs : List A) → length xs ≡ 0 → xs ≡ []
none_left [] h = refl
none_left (x ∷ xs) h = absurd (omega arith)

-- The job that a device is told about is the one created for it, and no other device is told of it.
pub get_pending-create_job :
    (d id now : String) (job : NewJob) (c : Conn Jobs)
    → c.faults ≡ []
    → contains job_id id c.tables ≡ false
    → job.size_bytes < 2 ^ 64
    → length (active job.device_id c.tables) ≡ 0
    → (get_pending_for_device d (create_job id now job c).1).0 ≡ (
        if job.device_id == d
        then ok (some (new_record id now job))
        else (get_pending_for_device d c).0)
unfolding get_pending_for_device
get_pending-create_job d id now job c works fresh h free =
    rw (create_job_result id now job c works fresh h) (
      ground (
        arith,
        active-new_row d id now job c.tables,
        none_left (active job.device_id c.tables) free,
        row_to_record-new_row id now job h,
        eq_iff job.device_id d,
      ))
