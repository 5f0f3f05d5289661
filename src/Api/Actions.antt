-- ===== src/Api/Actions.antt =====
-- Every request to the API keeps to a preorder on states if the writes of its parts do.
use real_estate_multi_tenant.Prelude.{String, Bool, List, [], ◌∷◌}
use real_estate_multi_tenant.Db.{Db}
use real_estate_multi_tenant.Db.Respects.{Preorder}
use real_estate_multi_tenant.Access.Request.{Request}
use real_estate_multi_tenant.Users.SignIn.{
  super_admin_login-Keeps, tenant_user_login-Keeps, refresh_token-Keeps,
}
use real_estate_multi_tenant.Users.Actions.{UserWrites, users_handle-Keeps}
use real_estate_multi_tenant.Tenants.Actions.{RouteWrites, tenants_handle-Keeps}
use real_estate_multi_tenant.Projects.Actions.{ProjectWrites, projects_handle-Keeps}
use real_estate_multi_tenant.Units.Actions.{UnitWrites, handle-Keeps}
use real_estate_multi_tenant.AuditLogs.Actions.{logs_handle-Keeps}
use real_estate_multi_tenant.Stats.Actions.{stats_handle-Keeps}
use real_estate_multi_tenant.Api.Routes.{
  Outside, ApiCall, health, super_admin_login, tenant_user_login, refresh_token, of_users,
  of_tenants, of_stats, of_projects, of_units, of_logs, unmatched, ApiRequest, route, serve_all,
}

pub record ApiWrites (o : Outside) (R : Db → Db → Type 0) : Type 0 where
  pub users : (schema : String) → UserWrites o.hash R schema
  pub projects : (schema : String) → ProjectWrites R schema
  pub units : (schema : String) → UnitWrites R schema
  pub tenants : RouteWrites o.pending o.hash R

module _ (o : Outside) {R : Db → Db → Type 0} (P : Preorder R) (W : ApiWrites o R) where
  pub route-R :
      (req : Request) (passes : Bool) (call : ApiCall) (s : Db) → R s (route o req passes call s).1
  unfolding route
  route-R req passes health s = P.refl s
  route-R req passes (super_admin_login dto) s =
      (super_admin_login-Keeps P o.compare o.sign passes dto).at s
  route-R req passes (tenant_user_login dto) s =
      (tenant_user_login-Keeps P o.compare o.sign passes dto).at s
  route-R req passes refresh_token s = (refresh_token-Keeps P o.compare o.sign o.verify req).at s
  route-R req passes (of_users call) s =
      (users_handle-Keeps P o.order_users req passes o.verify call W.users).at s
  route-R req passes (of_tenants call) s =
      (tenants_handle-Keeps P o.pending o.hash W.tenants o.order_tenants passes o.verify req
          call).at
        s
  route-R req passes of_stats s = (stats_handle-Keeps P o.floats o.verify req).at s
  route-R req passes (of_projects call) s =
      (projects_handle-Keeps P o.order_projects req passes o.verify call W.projects).at s
  route-R req passes (of_units call) s =
      (handle-Keeps P o.order_units req passes o.verify call W.units).at s
  route-R req passes (of_logs call) s = (logs_handle-Keeps P o.order_logs o.verify req call).at s
  route-R req passes unmatched s = P.refl s

  pub serve_all-R : (requests : List ApiRequest) (s : Db) → R s (serve_all o requests s)
  unfolding serve_all
  serve_all-R [] s = P.refl s
  serve_all-R (r ∷ rest) s =
      P.trans s _ _ (route-R r.request r.passes r.call s)
        (serve_all-R rest (route o r.request r.passes r.call s).1)
