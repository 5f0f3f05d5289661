-- ===== src/AuditLogs/Actions.antt =====
-- The routes under /audit-logs write nothing: they keep to every preorder on states.
use real_estate_multi_tenant.Prelude.{ℕ, ℤ, String, List, Option, none, some}
use real_estate_multi_tenant.Db.{AuditRow, Db}
use real_estate_multi_tenant.Db.Respects.{Preorder, Respects, Respects-run, respects_rules}
use real_estate_multi_tenant.Access.Request.{Verified, Request, AuthUser, Scope}
use real_estate_multi_tenant.Access.Scoped.{
  Keeps, Contained, Contained-respond, Keeps-member_route, Keeps-plain, Keeps-with_body,
  Keeps-scoped,
}
use real_estate_multi_tenant.AuditLogs.Repository
use real_estate_multi_tenant.AuditLogs.Repository.{LogFilter, refused, select_log}
use real_estate_multi_tenant.AuditLogs.Service
use real_estate_multi_tenant.AuditLogs.Routes
use real_estate_multi_tenant.AuditLogs.Routes.{
  LogCall, list_call, get_call, one, many, log_route, logs_handle,
}

module _ {R : Db → Db → Type 0} (P : Preorder R) where
  refused-Respects : {A : Type 0} → Respects R (refused {A = A})
  unfolding refused
  refused-Respects = Respects-run P (λ s. (none, s)) P.refl

  select_log-Respects : (id : Option ℕ) (schema : String) → Respects R (select_log id schema)
  select_log-Respects none schema = refused-Respects
  select_log-Respects (some id) schema = search (P, respects_rules)

  find_by_id-Respects :
      (id : Option ℕ) (schema : String) → Respects R (Repository.find_by_id id schema)
  unfolding Repository.find_by_id
  find_by_id-Respects id schema = search (P, respects_rules, select_log-Respects)

  find_all-Respects :
      (order : List AuditRow → List AuditRow) (schema : String) (o : LogFilter) (limit offset : ℤ)
      → Respects R (Repository.find_all order schema o limit offset)
  unfolding Repository.find_all
  find_all-Respects order schema o limit offset = search (P, respects_rules, refused-Respects)

  count-Respects : (schema : String) (o : LogFilter) → Respects R (Repository.count schema o)
  unfolding Repository.count
  count-Respects schema o = search (P, respects_rules, refused-Respects)

  found-Respects : (log : Option AuditRow) → Respects R (Service.found log)
  unfolding Service.found
  found-Respects none = search (P, respects_rules)
  found-Respects (some log) = search (P, respects_rules)

  get_all_logs-Contained :
      (order : List AuditRow → List AuditRow) (schema : String) (o : LogFilter)
      (page limit : Option ℤ)
      → Contained R (Routes.get_all_logs order schema o page limit)
  unfolding Routes.get_all_logs Service.get_all_logs
  get_all_logs-Contained order schema o page limit =
      search (P, respects_rules, Contained-respond, find_all-Respects, count-Respects)

  get_log_by_id-Contained :
      (id : Option ℕ) (schema : String) → Contained R (Routes.get_log_by_id id schema)
  unfolding Routes.get_log_by_id Service.get_log_by_id
  get_log_by_id-Contained id schema =
      search (P, respects_rules, Contained-respond, find_by_id-Respects, found-Respects)

  log_route-Keeps :
      (order : List AuditRow → List AuditRow) (call : LogCall) (user : AuthUser) (scope : Scope)
      → Keeps R (log_route order call user scope)
  unfolding log_route
  log_route-Keeps order (list_call filter page limit) user scope =
      Keeps-member_route P _ _ _ user _ (
        Keeps-with_body P many _
          (Keeps-plain P _ (get_all_logs-Contained order _ filter page limit)))
  log_route-Keeps order (get_call id) user scope =
      Keeps-member_route P _ _ _ user _
        (Keeps-with_body P one _ (Keeps-plain P _ (get_log_by_id-Contained id _)))

  pub logs_handle-Keeps :
      (order : List AuditRow → List AuditRow) (verify : String → Verified) (req : Request)
      (call : LogCall)
      → Keeps R (logs_handle order verify req call)
  unfolding logs_handle
  logs_handle-Keeps order verify req call = Keeps-scoped P verify req _ (log_route-Keeps order call)
