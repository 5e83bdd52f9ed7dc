-- ===== src/Ota/Store.antt =====
-- ota-service/src/store/mod.rs: the table of update jobs in SQLite. A method holds the connection's
-- mutex throughout. `id` and `now` are what `Uuid::new_v4` and SQLite's `datetime('now')` return. A
-- page's limit is what the server passes, a number above 0.
pub mod Active
pub mod Jobs
pub mod Paging
use robot_fleet.Prelude.{
  ℕ, zero, suc, ◌+◌, ◌-◌, String, Bool, Option, none, some, List, [], ◌∷◌, ◌++◌, map, ◌&&◌, ◌||◌,
  ◌==◌, Result, ok, err, Method, pure, fail, with_error, ◌>>=◌, ◌>>◌, if◌then◌else◌, ltb, nat_eq,
  unwrap_or, length, take, get_elem?, select,
}
use mathlib.Core.Option
use robot_fleet.Prelude.Int.{ℤ, to_i64, to_u64}
use robot_fleet.Prelude.Text.{text_ltb}
use robot_fleet.Prelude.Outcome.{first}
use robot_fleet.Sql.{
  SqlError, constraint_violation, query_returned_no_rows, Conn, autocommit, surviving_rows,
}
use robot_fleet.Sql.Table.{find, contains, modify, count}
use robot_fleet.Sql.Order.{order_rows}
use robot_fleet.Ota.Error.{Error, not_found, already_pending, db}

pub data JobStatus : Type 0 where
  pending in_progress completed failed : JobStatus

abbrev pub as_str : JobStatus → String
as_str pending = "pending"
as_str in_progress = "in_progress"
as_str completed = "completed"
as_str failed = "failed"

abbrev pub from_str : String → Option JobStatus
from_str s =
    if s == "pending"
    then some pending
    else if s == "in_progress"
    then some in_progress
    else if s == "completed"
    then some completed
    else if s == "failed"
    then some failed
    else none

pub record NewJob : Type 0 where
  pub device_id : String
  pub target_version : String
  pub artifact_url : String
  pub sha256 : String
  pub size_bytes : ℕ

pub record JobRecord : Type 0 where
  pub id : String
  pub device_id : String
  pub target_version : String
  pub artifact_url : String
  pub sha256 : String
  pub size_bytes : ℕ
  pub status : JobStatus
  pub error_message : Option String
  pub created_at : String

-- a row of the table `update_jobs`
pub record JobRow : Type 0 where
  pub id : String
  pub device_id : String
  pub target_version : String
  pub artifact_url : String
  pub sha256 : String
  pub size_bytes : ℤ
  pub status : String
  pub error_message : Option String
  pub created_at : String
  pub updated_at : String

abbrev pub Jobs : Type 0
Jobs = List JobRow

abbrev pub JobStore : Type 0 → Type 0
JobStore A = Method (Conn Jobs) Error A

abbrev pub job_id : JobRow → String
job_id r = r.id

abbrev pub row_to_record : JobRow → JobRecord
row_to_record r = record {
  id = r.id;
  device_id = r.device_id;
  target_version = r.target_version;
  artifact_url = r.artifact_url;
  sha256 = r.sha256;
  size_bytes = to_u64 r.size_bytes;
  status = unwrap_or (from_str r.status) pending;
  error_message = r.error_message;
  created_at = r.created_at;
}

abbrev pub is_active : JobRow → Bool
is_active r = (r.status == "pending") || (r.status == "in_progress")

abbrev pub is_active_for : String → JobRow → Bool
is_active_for device_id r = (r.device_id == device_id) && is_active r

-- the row of INSERT INTO update_jobs, with the defaults of the other columns
abbrev pub new_row : String → String → NewJob → JobRow
new_row id now job = record {
  id = id;
  device_id = job.device_id;
  target_version = job.target_version;
  artifact_url = job.artifact_url;
  sha256 = job.sha256;
  size_bytes = to_i64 job.size_bytes;
  status = "pending";
  error_message = none;
  created_at = now;
  updated_at = now;
}

unfoldable pub count_active : String → Method Jobs SqlError ℕ
count_active device_id rows = (ok (length (select (is_active_for device_id) rows)), rows)

unfoldable pub insert_job : JobRow → Method Jobs SqlError (Unit {0})
insert_job r rows =
    if contains job_id r.id rows
    then (err (constraint_violation "update_jobs.id"), rows)
    else (ok tt, rows ++ r ∷ [])

abbrev pub job_or : SqlError → Option JobRow → Result SqlError JobRecord
job_or e none = err e
job_or e (some r) = ok (row_to_record r)

unfoldable pub select_job : String → Method Jobs SqlError JobRecord
select_job id rows = (job_or query_returned_no_rows (find job_id id rows), rows)

unfoldable pub get_job_with_conn : String → JobStore JobRecord
unfolding select_job autocommit with_error
get_job_with_conn id = with_error (λ e. not_found id) (autocommit (select_job id))

unfoldable pub create_job : String → String → NewJob → JobStore JobRecord
unfolding count_active insert_job get_job_with_conn autocommit ◌>>=◌
create_job id now job = do
  active ← with_error db (autocommit (count_active job.device_id))
  if ltb 0 active then fail already_pending else pure tt
  with_error db (autocommit (insert_job (new_row id now job)))
  get_job_with_conn id

abbrev pub created_before : JobRow → JobRow → Bool
created_before r q = text_ltb r.created_at q.created_at

unfoldable pub select_pending : String → Method Jobs SqlError (Option JobRecord)
select_pending device_id rows = (
  ok (
      Option.map row_to_record
        (first (order_rows created_before (select (is_active_for device_id) rows)))),
  rows,
)

unfoldable pub get_pending_for_device : String → JobStore (Option JobRecord)
unfolding select_pending autocommit with_error
get_pending_for_device device_id = with_error db (autocommit (select_pending device_id))

abbrev pub with_status : String → JobStatus → Option String → JobRow → JobRow
with_status now status error r = record r {
  status = as_str status;
  error_message = error;
  updated_at = now;
}

-- its result is the number of rows
unfoldable pub update_job : String → String → JobStatus → Option String → Method Jobs SqlError ℕ
update_job now id status error rows =
    (ok (count job_id id rows), modify job_id id (with_status now status error) rows)

unfoldable pub update_status : String → String → JobStatus → Option String → JobStore (Unit {0})
unfolding update_job autocommit ◌>>=◌
update_status now id status error = do
  updated ← with_error db (autocommit (update_job now id status error))
  if nat_eq updated 0 then fail (not_found id) else pure tt

-- the WHERE clause of a listing
abbrev pub is_listed : String → Option String → JobRow → Bool
is_listed device_id none r = r.device_id == device_id
is_listed device_id (some cursor) r = (r.device_id == device_id) && text_ltb r.created_at cursor

-- ORDER BY created_at DESC
abbrev pub created_after : JobRow → JobRow → Bool
created_after r q = text_ltb q.created_at r.created_at

unfoldable pub select_jobs : String → Option String → ℕ → Method Jobs SqlError (List JobRecord)
select_jobs device_id cursor fetch rows = (
  ok (
      map row_to_record
        (take fetch (order_rows created_after (select (is_listed device_id cursor) rows)))),
  rows,
)

abbrev pub created_at_of : JobRecord → String
created_at_of r = r.created_at

-- the page and the cursor that follow from the records fetched
unfoldable pub job_page : ℕ → List JobRecord → List JobRecord × Option String
job_page limit records = (
  take limit records,
  if ltb limit (length records)
      then Option.map created_at_of (get_elem? records (limit - 1))
      else none,
)

unfoldable pub list_for_device :
    String → ℕ → Option String → JobStore (List JobRecord × Option String)
unfolding select_jobs job_page surviving_rows ◌>>=◌
list_for_device device_id limit cursor = do
  records ← with_error db (surviving_rows (select_jobs device_id cursor (limit + 1)))
  pure (job_page limit records)
