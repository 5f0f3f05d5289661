-- ===== src/Api/Routes.antt =====
-- src/routes/index.js: which router a request reaches, and requests one after the other. Matching a
-- path to a route is the package express; a call here is a path that matched, with its parameters.
use real_estate_multi_tenant.Prelude.{ℕ, String, Bool, List, [], ◌∷◌, none}
use real_estate_multi_tenant.Db.{TenantRow, UserRow, ProjectRow, UnitRow, AuditRow, Db, Result}
use real_estate_multi_tenant.Http.{success, failure}
use real_estate_multi_tenant.Access.Request.{Verified, Request, Payload}
use real_estate_multi_tenant.Access.Pipeline.{Handler, with_body}
use real_estate_multi_tenant.Schemas.Migrations.{Migration}
use real_estate_multi_tenant.Users.Dto.{LoginDto, LoginResult}
use real_estate_multi_tenant.Users.Routes
use real_estate_multi_tenant.Users.Routes.{UserCall, UserBody}
use real_estate_multi_tenant.Tenants.Routes.{TenantCall, TenantBody, tenants_handle}
use real_estate_multi_tenant.Projects.Routes.{ProjectCall, ProjectBody, projects_handle}
use real_estate_multi_tenant.Units.Routes.{UnitCall, UnitBody, handle}
use real_estate_multi_tenant.AuditLogs.Routes.{LogCall, LogBody, logs_handle}
use real_estate_multi_tenant.Stats.Controller.{Floats, Stats, stats_handle}

-- The packages that the code calls, and the orders of the listings: bcrypt, jsonwebtoken, umzug, and
-- floating-point numbers.
pub record Outside : Type 0 where
  pub compare : String → String → Bool
  pub hash : ℕ → String → String
  pub sign : Payload → String
  pub verify : String → Verified
  pub pending : String → Db → Result (List Migration)
  pub floats : Floats
  pub order_tenants : List TenantRow → List TenantRow
  pub order_users : List UserRow → List UserRow
  pub order_projects : List ProjectRow → List ProjectRow
  pub order_units : List UnitRow → List UnitRow
  pub order_logs : List AuditRow → List AuditRow

pub data ApiCall : Type 0 where
  health : ApiCall
  super_admin_login : LoginDto → ApiCall
  tenant_user_login : LoginDto → ApiCall
  refresh_token : ApiCall
  of_users : UserCall → ApiCall
  of_tenants : TenantCall → ApiCall
  of_stats : ApiCall
  of_projects : ProjectCall → ApiCall
  of_units : UnitCall → ApiCall
  of_logs : LogCall → ApiCall
  unmatched : ApiCall

-- The data of a reply.
pub data ApiBody : Type 0 where
  login_body : LoginResult → ApiBody
  token_body : String → ApiBody
  user_body : UserBody → ApiBody
  tenant_body : TenantBody → ApiBody
  stats_body : Stats → ApiBody
  project_body : ProjectBody → ApiBody
  unit_body : UnitBody → ApiBody
  log_body : LogBody → ApiBody

-- A request with the answer of the validation library to it.
pub record ApiRequest : Type 0 where
  pub request : Request
  pub passes : Bool
  pub call : ApiCall

module _ (o : Outside) where
  unfoldable pub route : Request → Bool → ApiCall → Handler ApiBody
  route req passes health s = (success 200 "Housingram API is running" none, s)
  route req passes (super_admin_login dto) s =
      with_body login_body (Routes.super_admin_login o.compare o.sign passes dto) s
  route req passes (tenant_user_login dto) s =
      with_body login_body (Routes.tenant_user_login o.compare o.sign passes dto) s
  route req passes refresh_token s =
      with_body token_body (Routes.refresh_token o.sign o.verify req) s
  route req passes (of_users call) s =
      with_body user_body (Routes.users_handle o.hash o.order_users req passes o.verify call) s
  route req passes (of_tenants call) s =
      with_body tenant_body
        (tenants_handle o.pending o.hash o.order_tenants passes o.verify req call) s
  route req passes of_stats s = with_body stats_body (stats_handle o.floats o.verify req) s
  route req passes (of_projects call) s =
      with_body project_body (projects_handle o.order_projects req passes o.verify call) s
  route req passes (of_units call) s =
      with_body unit_body (handle o.order_units req passes o.verify call) s
  route req passes (of_logs call) s =
      with_body log_body (logs_handle o.order_logs o.verify req call) s
  route req passes unmatched s = (failure 404 "Route not found", s)

  -- Requests one after the other.
  unfoldable pub serve_all : List ApiRequest → Db → Db
  serve_all [] s = s
  serve_all (r ∷ rest) s = serve_all rest (route r.request r.passes r.call s).1
