-- ===== src/Sql.antt =====
-- A rusqlite connection as the stores use it: the tables, the transaction that BEGIN IMMEDIATE opens,
-- and the engine's failures. SQLite itself is not part of the repository: what the model takes from it
-- is the documented meaning of the statements that the sources spell out. An engine failure (disk,
-- lock, corruption) may strike any statement: `faults` says, statement by statement, which one does,
-- and the theorems hold whatever it says, unless they say that nothing fails. A statement that fails
-- writes nothing; SQLite rolls an open transaction back by itself for some errors (SQLITE_FULL, IOERR,
-- NOMEM, BUSY and INTERRUPT, as the case may be), and leaves it open for others, as a COMMIT that meets
-- SQLITE_BUSY does: the fault says which.
pub mod Table
pub mod Order
pub mod Keeping
pub mod Transaction
use robot_fleet.Prelude.{
  ℕ, take, ◌≡◌, String, Bool, Option, none, some, List, [], ◌∷◌, Result, ok, err, Method, pure,
  fail, lift, attempt, with_error, ◌>>=◌, ◌>>◌, unwrap_or, if◌then◌else◌,
}
use robot_fleet.Prelude.Text.{format}

-- rusqlite::Error, as far as the sources tell its cases apart
pub data SqlError : Type 0 where
  constraint_violation : String → SqlError
  query_returned_no_rows : SqlError
  failure : String → SqlError

pub sql_text : SqlError → String
sql_text (constraint_violation column) = format ("UNIQUE constraint failed: " ∷ column ∷ [])
sql_text query_returned_no_rows = "Query returned no rows"
sql_text (failure text) = text

-- A failure of the engine: its text, whether SQLite rolls back an open transaction by itself, and after how
-- many rows of a query it strikes, if not at once.
pub record Fault : Type 0 where
  pub text : String
  pub rolls_back : Bool
  pub at_row : Option ℕ

pub record Conn {ℓ} (T : Type ℓ) : Type ℓ where
  pub tables : T
  -- the tables at BEGIN, while a transaction is open
  pub saved : Option T
  pub faults : List (Option Fault)

-- What a restart after a crash would find: an open transaction is rolled back.
abbrev pub durable {ℓ} : {T : Type ℓ} → Conn T → T
durable c = unwrap_or c.saved c.tables

abbrev pub next_fault : List (Option Fault) → Option Fault
next_fault [] = none
next_fault (f ∷ fs) = f

abbrev pub later_faults : List (Option Fault) → List (Option Fault)
later_faults [] = []
later_faults (f ∷ fs) = fs

-- an open transaction undone
abbrev pub rolled_back {ℓ} : {T : Type ℓ} → Conn T → Conn T
rolled_back c = record c { tables = durable c; saved = none }

-- the rows of a query that fails after some of them
abbrev cut : {A : Type 0} → Option ℕ → String → Result SqlError (List A) → Result SqlError (List A)
cut none text r = err (failure text)
cut (some n) text (ok rows) = ok (take n rows)
cut (some n) text (err e) = err e

module _ {A T : Type 0} where
  abbrev struck : Option Fault → Method (Conn T) SqlError A → Method (Conn T) SqlError A
  struck none m c = m c
  struck (some f) m c = (err (failure f.text), if f.rolls_back then rolled_back c else c)

  unfoldable pub engine : Method (Conn T) SqlError A → Method (Conn T) SqlError A
  engine m c = struck (next_fault c.faults) m (record c { faults = later_faults c.faults })

  -- one INSERT, UPDATE or SELECT, in a transaction or outside of one
  unfoldable pub statement : Method T SqlError A → Method (Conn T) SqlError A
  unfolding engine
  statement m = engine λ c. let (r, t) = m c.tables in (r, record c { tables = t })

  -- A statement on a connection on which no transaction is ever opened: nothing can be rolled back.
  unfoldable pub autocommit : Method T SqlError A → Method (Conn T) SqlError A
  autocommit m c = elim (next_fault c.faults) [
    | none ↦ let (r, t) = m c.tables in (r, record c { tables = t; faults = later_faults c.faults })
    | some f ↦ (err (failure f.text), record c { faults = later_faults c.faults })
  ]

  -- A query whose rows go through `filter_map(|r| r.ok())`: a failure between rows only ends them.
  unfoldable pub surviving_rows : Method T SqlError (List A) → Method (Conn T) SqlError (List A)
  surviving_rows m c = elim (next_fault c.faults) [
    | none ↦ let (r, t) = m c.tables in (r, record c { tables = t; faults = later_faults c.faults })
    | some f ↦ (cut f.at_row f.text (m c.tables).0, record c { faults = later_faults c.faults })
  ]

module _ {T : Type 0} where
  unfoldable pub begin_immediate : Method (Conn T) SqlError (Unit {0})
  unfolding engine
  begin_immediate = engine λ c. elim c.saved [
    | none ↦ (ok tt, record c { saved = some c.tables })
    | some t ↦ (err (failure "cannot start a transaction within a transaction"), c)
  ]

  unfoldable pub commit : Method (Conn T) SqlError (Unit {0})
  unfolding engine
  commit = engine λ c. elim c.saved [
    | none ↦ (err (failure "cannot commit - no transaction is active"), c)
    | some t ↦ (ok tt, record c { saved = none })
  ]

  unfoldable pub rollback : Method (Conn T) SqlError (Unit {0})
  unfolding engine
  rollback = engine λ c. elim c.saved [
    | none ↦ (err (failure "cannot rollback - no transaction is active"), c)
    | some t ↦ (ok tt, record c { tables = t; saved = none })
  ]

module _ {T E A : Type 0} where
  -- COMMIT after a result; ROLLBACK, its own result dropped, after an error
  unfoldable pub finish : (SqlError → E) → Result E A → Method (Conn T) E A
  unfolding commit rollback ◌>>=◌
  finish db (ok a) = do with_error db commit; pure a
  finish db (err e) = do attempt (with_error db rollback); fail e

  unfoldable pub transaction : (SqlError → E) → Method (Conn T) E A → Method (Conn T) E A
  unfolding begin_immediate finish ◌>>=◌
  transaction db body = do with_error db begin_immediate; result ← attempt body; finish db result
