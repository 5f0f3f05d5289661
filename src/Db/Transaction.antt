-- ===== src/Db/Transaction.antt =====
-- A transaction of the ORM, as a request sees it: the statements in it are undone together, what ran
-- beside it stays.
use real_estate_multi_tenant.Prelude.{[], Option, none, some}
use real_estate_multi_tenant.Errors.{Error, query_failed}
use real_estate_multi_tenant.Db.Rows.{Table, Db}
use real_estate_multi_tenant.Db.Exec.{Result, ok, err, M}
use real_estate_multi_tenant.Db.Statements.{run}

-- The rows of a table as they were, with the sequence as it is. A table that was made beside the
-- transaction was empty when it was made.
abbrev pub restore : {Row : Type 0} → Option (Table Row) → Option (Table Row) → Option (Table Row)
restore before none = none
restore none (some t) = some (record t { rows = [] })
restore (some t') (some t) = some (record t { rows = t'.rows })

-- The tables that a transaction of this program writes, as they were when it began.
abbrev pub rolled_back : Db → Db → Db
rolled_back before s = record s {
  tenants = record (s.tenants) { rows = before.tenants.rows };
  users = λ name. restore (before.users name) (s.users name);
}

-- `sequelize.transaction()`
unfoldable pub begin : M (Unit {0})
unfolding run
begin = run λ s. (some tt, s)

-- A commit that fails leaves nothing written.
abbrev pub settle : Db → Result (Unit {0}) → M (Unit {0})
settle before (ok done) s = (ok done, s)
settle before (err e) s = (err e, rolled_back before s)

unfoldable pub commit : Db → M (Unit {0})
unfolding run
commit before s = let (r, s') = run (λ s. (some tt, s)) s in settle before r s'

-- The writes are undone also where the statement itself fails, with the connection.
unfoldable pub rollback : Db → M (Unit {0})
unfolding run
rollback before s = let (r, s') = run (λ s. (some tt, s)) s in (r, rolled_back before s')

-- What a rollback throws after the commit was tried.
abbrev pub finished : Error
finished =
    query_failed "Transaction cannot be rolled back because it has been finished with state: commit"
