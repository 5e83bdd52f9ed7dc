-- ===== src/Ota/Server/Concurrent/Orders.antt =====
-- Orders, the jobs behind them, and what the statements of the store do to these.
use robot_fleet.Prelude.{
  suc, ◌≡◌, refl, String, false, Option, List, [], ◌∷◌, ◌++◌, arith, ◌==◌, eq_refl, eq_iff,
  if◌then◌else◌, Bool-cases, ok, All, inl, inr,
}
use robot_fleet.Sql.{Conn}
use robot_fleet.Sql.Table.{contains, modify, find-append, find-modify, find-some-contains}
use robot_fleet.Ota.Store.{
  JobStatus, NewJob, JobRecord, JobRow, Jobs, job_id, new_row, row_to_record, with_status,
  create_job, update_status,
}
use robot_fleet.Ota.Store.Active.{tables-create_job, tables-update_status}
use robot_fleet.Ota.Server.Concurrent.{Order, times, HasJob}

pub times-append :
    (id : String) (before after : List Order) (o : Order)
    → times id (before ++ o ∷ after) ≡ (
        if o.1.update_job_id == id
        then suc (times id (before ++ after))
        else times id (before ++ after))
times-append id [] after o = refl
times-append id ((d, cmd) ∷ before) after o = ground (arith, times-append id before after o)

pub All-remove :
    (P : Order → Type 0) (before after : List Order) (x : Order)
    → All P (before ++ x ∷ after)
    → P x × All P (before ++ after)
All-remove P [] after x h = h
All-remove P (b ∷ before) after x (hb, h) =
    let (px, rest) = All-remove P before after x h in (px, (hb, rest))

-- an id that the store does not have is in no order
pub times-fresh :
    (id : String) (rows : Jobs) (os : List Order)
    → contains job_id id rows ≡ false
    → All (HasJob rows) os
    → times id os ≡ 0
times-fresh id rows [] fresh h = refl
times-fresh id rows ((d, cmd) ∷ os) fresh ((r, found, _, _), h) = ground (
  arith,
  fresh,
  eq_iff cmd.update_job_id id,
  find-some-contains job_id cmd.update_job_id rows r found,
  times-fresh id rows os fresh h,
)

pub All-map :
    {P Q : Order → Type 0} → ((o : Order) → P o → Q o) → (os : List Order) → All P os → All Q os
All-map f [] h = tt
All-map f (o ∷ os) (ho, h) = (f o ho, All-map f os h)

pub HasJob-append :
    (rows : Jobs) (r : JobRow) (o : Order)
    → contains job_id r.id rows ≡ false
    → HasJob rows o
    → HasJob (rows ++ r ∷ []) o
HasJob-append rows r (d, cmd) fresh (q, found, same, version) = (
  q,
  ground (
    arith,
    found,
    find-append job_id cmd.update_job_id r rows,
    find-some-contains job_id cmd.update_job_id rows q found,
  ),
  same,
  version,
)

pub HasJob-modify :
    (rows : Jobs) (id now : String) (status : JobStatus) (e : Option String) (o : Order)
    → HasJob rows o
    → HasJob (modify job_id id (with_status now status e) rows) o
HasJob-modify rows id now status e (d, cmd) (q, found, same, version) =
    let moved =
      find-modify job_id id cmd.update_job_id (with_status now status e) rows (λ r. refl) in
    elim (Bool-cases (id == cmd.update_job_id)) [
      | inl own ↦ (with_status now status e q, ground (arith, found, moved, own), same, version)
      | inr other ↦ (q, ground (arith, found, moved, other), same, version)
    ]

-- what a job that was created is
pub create_job_done :
    (id now : String) (job : NewJob) (c : Conn Jobs) (r : JobRecord)
    → (create_job id now job c).0 ≡ ok r
    → (r ≡ row_to_record (new_row id now job))
      × (contains job_id id c.tables ≡ false)
      × ((create_job id now job c).1.tables ≡ c.tables ++ new_row id now job ∷ [])
unfolding create_job
create_job_done id now job c r h =
    ground (arith, find-append job_id id (new_row id now job) c.tables, eq_refl id)

pub HasJob-create_job :
    (id now : String) (job : NewJob) (c : Conn Jobs) (o : Order)
    → HasJob c.tables o
    → HasJob (create_job id now job c).1.tables o
HasJob-create_job id now job c o h = elim (tables-create_job id now job c) [
  | inl same ↦ rw same h
  | inr (none_active, fresh, more) ↦ rw more (HasJob-append c.tables (new_row id now job) o fresh h)
]

pub HasJob-update_status :
    (now id : String) (status : JobStatus) (e : Option String) (c : Conn Jobs) (o : Order)
    → HasJob c.tables o
    → HasJob (update_status now id status e c).1.tables o
HasJob-update_status now id status e c o h = elim (tables-update_status now id status e c) [
  | inl same ↦ rw same h
  | inr changed ↦ rw changed (HasJob-modify c.tables id now status e o h)
]
