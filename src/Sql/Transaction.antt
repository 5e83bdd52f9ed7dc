-- ===== src/Sql/Transaction.antt =====
-- Atomicity. A body that runs between BEGIN IMMEDIATE and COMMIT or ROLLBACK, whatever fails on the
-- way, is either visible as a whole or not at all.
use robot_fleet.Prelude.{◌≡◌, refl, none, some, ok, err, Method, arith, true, is_ok}
use robot_fleet.Sql.{SqlError, Conn, durable, later_faults, transaction}

module _ {T : Type 0} where
  -- the connection once BEGIN IMMEDIATE has opened a transaction
  abbrev pub opened : Conn T → Conn T
  opened c = record c { saved = some c.tables; faults = later_faults c.faults }

-- In an open transaction the body leaves the saved tables alone, and the transaction open unless it fails.
pub record StaysOpen {T E A : Type 0} (body : Method (Conn T) E A) : Type 0 where
  pub open_still :
      (c : Conn T) (t : T) → c.saved ≡ some t → is_ok (body c).0 ≡ true → (body c).1.saved ≡ some t
  pub undone : (c : Conn T) (t : T) → c.saved ≡ some t → durable (body c).1 ≡ t

module _ {T E A : Type 0} (db : SqlError → E) (body : Method (Conn T) E A) where
  module _ (k : StaysOpen body) where
    durable-body : (c : Conn T) → durable (body (opened c)).1 ≡ c.tables
    durable-body c = k.undone (opened c) c.tables refl

    saved-body :
        (c : Conn T) → is_ok (body (opened c)).0 ≡ true → (body (opened c)).1.saved ≡ some c.tables
    saved-body c = k.open_still (opened c) c.tables refl

    -- An error leaves the durable tables as they were.
    pub durable-transaction_err :
        (c : Conn T) (e : E)
        → (transaction db body c).0 ≡ err e
        → durable (transaction db body c).1 ≡ durable c
    unfolding transaction
    durable-transaction_err c e h = ground (arith, saved-body c, durable-body c)

    -- A result was computed by the body from the tables before, and its tables are the durable ones.
    pub durable-transaction_ok :
        (c : Conn T) (a : A)
        → (transaction db body c).0 ≡ ok a
        → (c.saved ≡ none)
          × ((body (opened c)).0 ≡ ok a)
          × ((transaction db body c).1.tables ≡ (body (opened c)).1.tables)
          × ((transaction db body c).1.saved ≡ none)
    unfolding transaction
    durable-transaction_ok c a h = ground (arith, saved-body c)
