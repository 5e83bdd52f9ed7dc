-- ===== src/Sql/Keeping.antt =====
-- What holds of the tables, and of those that a rollback would bring back, is kept by a statement and
-- by a transaction whose parts keep it.
use robot_fleet.Prelude.{Option, none, some, Result, ok, err, Method, arith}
use robot_fleet.Prelude.Results.Keeps.{Keeps, keeps_rules}
use robot_fleet.Sql.{
  SqlError, Conn, statement, begin_immediate, commit, rollback, finish, transaction,
}

module _ {T : Type 0} (P : T → Type 0) where
  abbrev pub OnSaved : Option T → Type 0
  OnSaved none = Unit
  OnSaved (some t) = P t

  pub record Holds (c : Conn T) : Type 0 where
    pub now : P c.tables
    pub after_rollback : OnSaved c.saved

module _ {T : Type 0} {P : T → Type 0} where
  module _ {A : Type 0} where
    pub Holds-statement : (m : Method T SqlError A) → Keeps P m → Keeps (Holds P) (statement m)
    unfolding statement
    Holds-statement m k = record {
      after = λ c h. record {
        now = ground (arith, h.now, k.after c.tables h.now);
        after_rollback = ground (arith, h.after_rollback);
      };
    }

  pub Holds-begin_immediate : Keeps (Holds P) begin_immediate
  unfolding begin_immediate
  Holds-begin_immediate = record {
    after = λ c h. record {
      now = ground (arith, h.now);
      after_rollback = ground (arith, h.now, h.after_rollback);
    };
  }

  pub Holds-commit : Keeps (Holds P) commit
  unfolding commit
  Holds-commit = record {
    after = λ c h. record {
      now = ground (arith, h.now);
      after_rollback = ground (arith, h.after_rollback);
    };
  }

  pub Holds-rollback : Keeps (Holds P) rollback
  unfolding rollback
  Holds-rollback = record {
    after = λ c h. record {
      now = ground (arith, h.now, h.after_rollback);
      after_rollback = ground (arith, h.after_rollback);
    };
  }

  module _ {E A : Type 0} (db : SqlError → E) where
    Holds-finish : (r : Result E A) → Keeps (Holds P) (finish db r)
    unfolding finish
    Holds-finish (ok a) = search (keeps_rules, Holds-commit)
    Holds-finish (err e) = search (keeps_rules, Holds-rollback)

    pub Holds-transaction :
        (body : Method (Conn T) E A) → Keeps (Holds P) body → Keeps (Holds P) (transaction db body)
    unfolding transaction
    Holds-transaction body k = search (keeps_rules, Holds-begin_immediate, Holds-finish)
