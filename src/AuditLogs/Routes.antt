-- ===== src/AuditLogs/Routes.antt =====
-- src/modules/auditLogs/auditLog.controller.js and auditLog.routes.js: `schema` is `req.tenantSchema`.
use real_estate_multi_tenant.Prelude.{ℕ, ℤ, String, true, List, Option, none, some}
use real_estate_multi_tenant.Errors.{Error, not_found}
use real_estate_multi_tenant.Db.{AuditRow, Db, pure, ◌>>=◌}
use real_estate_multi_tenant.Http.{Reply, Handled, send_success, send_error, respond}
use real_estate_multi_tenant.Access.Roles.{Action}
use real_estate_multi_tenant.Access.Roles
use real_estate_multi_tenant.Access.Request.{Verified, Request, AuthUser, Scope}
use real_estate_multi_tenant.Access.Pipeline.{Handler, scoped, member_route, plain, with_body}
use real_estate_multi_tenant.AuditLogs.Repository.{LogFilter}
use real_estate_multi_tenant.AuditLogs.Service
use real_estate_multi_tenant.AuditLogs.Service.{LogPage}

abbrev pub internal_error : {A : Type 0} → Error → Reply A
internal_error e = send_error e 500

abbrev pub not_found_or_500 : {A : Type 0} → Error → Reply A
not_found_or_500 (not_found m) = send_error (not_found m) 404
not_found_or_500 e = send_error e 500

unfoldable pub get_all_logs :
    (List AuditRow → List AuditRow)
    → String
    → LogFilter
    → Option ℤ
    → Option ℤ
    → Db
    → Handled LogPage × Db
get_all_logs order schema o page limit =
    respond
      (do
        result ← Service.get_all_logs order schema o page limit
        pure (send_success (some result) "Audit logs retrieved successfully", none))
      internal_error

unfoldable pub get_log_by_id : Option ℕ → String → Db → Handled AuditRow × Db
get_log_by_id id schema =
    respond
      (do
        log ← Service.get_log_by_id id schema
        pure (send_success (some log) "Audit log retrieved successfully", none))
      not_found_or_500

pub data LogCall : Type 0 where
  list_call : LogFilter → Option ℤ → Option ℤ → LogCall
  get_call : Option ℕ → LogCall

-- The data of a reply: a log, or a page of the listing.
pub data LogBody : Type 0 where
  one : AuditRow → LogBody
  many : LogPage → LogBody

module _ (order : List AuditRow → List AuditRow) where
  -- The routes have no validation, which stands here as one that passes.
  unfoldable pub log_route : LogCall → AuthUser → Scope → Handler LogBody
  log_route (list_call filter page limit) user scope =
      member_route true Roles.audit_logs Roles.read user
        (with_body many (plain (get_all_logs order scope.tenant_schema filter page limit)))
  log_route (get_call id) user scope =
      member_route true Roles.audit_logs Roles.read user
        (with_body one (plain (get_log_by_id id scope.tenant_schema)))

  unfoldable pub logs_handle : (String → Verified) → Request → LogCall → Handler LogBody
  logs_handle verify req call = scoped verify req (log_route call)
