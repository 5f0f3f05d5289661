-- ===== src/AuditLogs/Repository.antt =====
-- src/modules/auditLogs/repository/audit-log.repository.js: the logs of a schema, read back. `order`
-- stands for ORDER BY created_at DESC.
use real_estate_multi_tenant.Prelude.{
  ℕ, ℤ, String, Bool, true, List, [], Option, none, some, ◌&&◌, ◌==◌, leb, head?, str_eq,
  if◌then◌else◌,
}
use real_estate_multi_tenant.Db.{
  AuditRow, M, pure, ◌>>=◌, attempt, audit_logs, run, select_where, count_where, select_page,
}
use real_estate_multi_tenant.Paging.{page_of}

-- The options of `findAll` and `count`, which come from the query string unchecked; one that is
-- undefined or empty adds no condition. `readable` says whether the driver can read the texts of the
-- ids and the dates: it refuses the statement otherwise.
pub record LogFilter : Type 0 where
  pub readable : Bool
  pub user_id : Option ℕ
  pub action : Option String
  pub entity : Option String
  pub entity_id : Option ℕ
  pub start_date : Option ℕ
  pub end_date : Option ℕ

abbrev condition {ℓ} : {A : Type ℓ} → Option A → (A → Bool) → Bool
condition none p = true
condition (some a) p = p a

unfoldable pub matches : LogFilter → AuditRow → Bool
matches o log =
    condition o.user_id (λ id. log.user_id == id)
    && (condition o.action (λ action. str_eq log.action action)
        && (condition o.entity (λ entity. str_eq log.entity entity)
            && (condition o.entity_id (λ id. log.entity_id == id)
                && (condition o.start_date (λ start. leb start log.created_at)
                    && condition o.end_date (λ end. leb log.created_at end)))))

-- A statement that the driver refuses.
unfoldable pub refused : {A : Type 0} → M A
unfolding run
refused = run λ s. (none, s)

unfoldable pub has_id : ℕ → AuditRow → Bool
has_id id log = log.id == id

-- `id` is `none` where the text of the path is no number. An error counts as a missing log.
abbrev pub select_log : Option ℕ → String → M (List AuditRow)
select_log none schema = refused
select_log (some id) schema = select_where audit_logs schema (has_id id)

unfoldable pub find_by_id : Option ℕ → String → M (Option AuditRow)
find_by_id id schema = attempt (do rows ← select_log id schema; pure (head? rows)) (λ e. pure none)

unfoldable pub find_all :
    (List AuditRow → List AuditRow) → String → LogFilter → ℤ → ℤ → M (List AuditRow)
find_all order schema o limit offset =
    let rows =
      select_page audit_logs schema (matches o) (λ rows. page_of limit offset (order rows)) in
    attempt (if o.readable then rows else refused) (λ e. pure [])

unfoldable pub count : String → LogFilter → M ℕ
count schema o =
    attempt (if o.readable then count_where audit_logs schema (matches o) else refused)
      (λ e. pure 0)
