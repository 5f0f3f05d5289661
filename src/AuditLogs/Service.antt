-- ===== src/AuditLogs/Service.antt =====
-- src/modules/auditLogs/auditLog.service.js
use real_estate_multi_tenant.Prelude.{ℕ, ℤ, pos, String, List, Option, none, some}
use real_estate_multi_tenant.Errors.{not_found}
use real_estate_multi_tenant.Db.{AuditRow, M, pure, raise, ◌>>=◌}
use real_estate_multi_tenant.Paging.{or_default, offset_of}
use real_estate_multi_tenant.AuditLogs.Repository
use real_estate_multi_tenant.AuditLogs.Repository.{LogFilter}

-- `new AuditLogResponseDto(log)` copies the columns of a row.
unfoldable pub audit_log_response : AuditRow → AuditRow
audit_log_response log = record {
  id = log.id;
  user_id = log.user_id;
  user_name = log.user_name;
  action = log.action;
  entity = log.entity;
  entity_id = log.entity_id;
  old_values = log.old_values;
  new_values = log.new_values;
  ip_address = log.ip_address;
  user_agent = log.user_agent;
  created_at = log.created_at;
}

pub record LogPage : Type 0 where
  pub logs : List AuditRow
  pub total : ℕ
  pub page : ℤ
  pub limit : ℤ

unfoldable pub get_all_logs :
    (List AuditRow → List AuditRow) → String → LogFilter → Option ℤ → Option ℤ → M LogPage
get_all_logs order schema o page_option limit_option = do
  let page = or_default page_option (pos 1)
  let limit = or_default limit_option (pos 20)
  rows ← Repository.find_all order schema o limit (offset_of page limit)
  total ← Repository.count schema o
  pure (record { logs = rows; total = total; page = page; limit = limit })

-- `if (!log) throw new NotFoundError(…)`
unfoldable pub found : Option AuditRow → M AuditRow
found none = raise (not_found "Audit log not found")
found (some log) = pure log

unfoldable pub get_log_by_id : Option ℕ → String → M AuditRow
get_log_by_id id schema = do
  log ← Repository.find_by_id id schema
  l ← found log
  pure (audit_log_response l)
