-- ===== src/Ota/Store/Active.antt =====
-- The active jobs of a device, and what create_job and a final update_status do to them.
use robot_fleet.Prelude.{
  ◌≤◌, ◌<◌, ◌≡◌, refl, String, Bool, true, false, Option, some, List, [], ◌∷◌, ◌++◌, arith, eq_iff,
  ◌⊎◌, inl, inr, length, select, if◌then◌else◌, ◌==◌, length-append,
}
use robot_fleet.Sql.{Conn}
use robot_fleet.Sql.Table.{find, contains, modify, IsUnique, IsUnique-append, IsUnique-modify}
use robot_fleet.Ota.Store.{
  JobStatus, completed, failed, NewJob, JobRow, Jobs, job_id, is_active_for, new_row, with_status,
  create_job, update_status,
}

abbrev pub active : String → Jobs → Jobs
active d rows = select (is_active_for d) rows

-- The table's invariant: the ids differ, and no device has two active jobs.
pub record IsValid (rows : Jobs) : Type 0 where
  pub unique : IsUnique job_id rows
  pub one_active : (d : String) → length (active d rows) ≤ 1

module _ {A : Type 0} where
  pub select-append :
      (p : A → Bool) (xs : List A) (x : A)
      → select p (xs ++ x ∷ []) ≡ (if p x then select p xs ++ x ∷ [] else select p xs)
  select-append p [] x = refl
  select-append p (y ∷ ys) x = ground (arith, select-append p ys x)

-- A new job is active for its own device and for no other.
pub active-new_row :
    (d id now : String) (job : NewJob) (rows : Jobs)
    → active d (rows ++ new_row id now job ∷ [])
      ≡ (if job.device_id == d then active d rows ++ new_row id now job ∷ [] else active d rows)
active-new_row d id now job rows =
    ground (arith, select-append (is_active_for d) rows (new_row id now job))

abbrev pub is_final : JobStatus → Bool
is_final completed = true
is_final failed = true
is_final _ = false

final-active :
    (d now : String) (status : JobStatus) (e : Option String) (r : JobRow)
    → is_final status ≡ true
    → is_active_for d (with_status now status e r) ≡ false
final-active d now completed e r h = ground arith
final-active d now failed e r h = ground arith
final-active d now JobStatus.pending e r h = cc
final-active d now JobStatus.in_progress e r h = cc

-- A final status takes its job from the active ones and leaves the others.
pub length-active-with_status :
    (d id now : String) (status : JobStatus) (e : Option String) (rows : Jobs)
    → is_final status ≡ true
    → length (active d (modify job_id id (with_status now status e) rows)) ≤ length (active d rows)
unfolding modify
length-active-with_status d id now status e [] h = omega arith
length-active-with_status d id now status e (r ∷ rs) h =
    ground
      (arith, final-active d now status e r h, length-active-with_status d id now status e rs h)

-- What create_job does to the table, whatever fails.
pub tables-create_job :
    (id now : String) (job : NewJob) (c : Conn Jobs)
    → ((create_job id now job c).1.tables ≡ c.tables)
      ⊎ (length (active job.device_id c.tables) ≡ 0)
        × (contains job_id id c.tables ≡ false)
        × ((create_job id now job c).1.tables ≡ c.tables ++ new_row id now job ∷ [])
unfolding create_job
tables-create_job id now job c = ground arith

pub IsValid-insert :
    (id now : String) (job : NewJob) (rows : Jobs)
    → IsValid rows
    → length (active job.device_id rows) ≡ 0
    → contains job_id id rows ≡ false
    → IsValid (rows ++ new_row id now job ∷ [])
IsValid-insert id now job rows v none_active fresh = record {
  unique = IsUnique-append job_id (new_row id now job) rows fresh v.unique;
  one_active = λ d. ground (
    arith,
    active-new_row d id now job rows,
    eq_iff job.device_id d,
    length-append (active d rows) (new_row id now job ∷ []),
    v.one_active d,
  );
}

pub create_job-IsValid :
    (id now : String) (job : NewJob) (c : Conn Jobs)
    → IsValid c.tables
    → IsValid (create_job id now job c).1.tables
create_job-IsValid id now job c v = elim (tables-create_job id now job c) [
  | inl same ↦ rw same v
  | inr (none_active, fresh, more) ↦
      rw more (IsValid-insert id now job c.tables v none_active fresh)
]

IsValid-final :
    (id now : String) (status : JobStatus) (e : Option String) (rows : Jobs)
    → is_final status ≡ true
    → IsValid rows
    → IsValid (modify job_id id (with_status now status e) rows)
IsValid-final id now status e rows final v = record {
  unique = IsUnique-modify job_id job_id (with_status now status e) (λ r. refl) id rows v.unique;
  one_active =
      λ d. omega (arith, length-active-with_status d id now status e rows final, v.one_active d);
}

pub tables-update_status :
    (now id : String) (status : JobStatus) (e : Option String) (c : Conn Jobs)
    → ((update_status now id status e c).1.tables ≡ c.tables)
      ⊎ ((update_status now id status e c).1.tables
          ≡ modify job_id id (with_status now status e) c.tables)
unfolding update_status
tables-update_status now id status e c = ground arith

pub update_status-IsValid :
    (now id : String) (status : JobStatus) (e : Option String) (c : Conn Jobs)
    → is_final status ≡ true
    → IsValid c.tables
    → IsValid (update_status now id status e c).1.tables
update_status-IsValid now id status e c final v = elim (tables-update_status now id status e c) [
  | inl same ↦ rw same v
  | inr changed ↦ rw changed (IsValid-final id now status e c.tables final v)
]

-- A final status of an active job leaves its device one active job fewer.
length-active-find :
    (d id now : String) (status : JobStatus) (e : Option String) (rows : Jobs) (r : JobRow)
    → is_final status ≡ true
    → find job_id id rows ≡ some r
    → is_active_for d r ≡ true
    → length (active d (modify job_id id (with_status now status e) rows)) < length (active d rows)
unfolding modify find
length-active-find d id now status e [] r final h act = cc
length-active-find d id now status e (x ∷ xs) r final h act = ground (
  arith,
  final-active d now status e x final,
  length-active-with_status d id now status e xs final,
  length-active-find d id now status e xs r final,
)

pub active-final :
    (d id now : String) (status : JobStatus) (e : Option String) (rows : Jobs) (r : JobRow)
    → is_final status ≡ true
    → IsValid rows
    → find job_id id rows ≡ some r
    → is_active_for d r ≡ true
    → length (active d (modify job_id id (with_status now status e) rows)) ≡ 0
active-final d id now status e rows r final v h act =
    omega (arith, length-active-find d id now status e rows r final h act, v.one_active d)
