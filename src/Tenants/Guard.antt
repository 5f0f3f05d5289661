-- ===== src/Tenants/Guard.antt =====
-- Who may reach the tenants and the statistics.
use real_estate_multi_tenant.Prelude.{ℕ, String, Bool, List}
use real_estate_multi_tenant.Db.{TenantRow, Db, Result}
use real_estate_multi_tenant.Access.Request.{Verified, Request}
use real_estate_multi_tenant.Access.Auth.{authenticate_token}
use real_estate_multi_tenant.Access.Guard.{Refused}
use real_estate_multi_tenant.Access.SuperAdmin.{AsSuperAdmin, public_scoped-Refused}
use real_estate_multi_tenant.Schemas.Migrations.{Migration}
use real_estate_multi_tenant.Tenants.Routes.{TenantCall, tenant_route, tenants_handle}

-- A request under /tenants that is not authenticated as a Super Admin is answered with 400, 401 or
-- 403, and the database is as it was.
pub tenants_handle-Refused :
    (pending : String → Db → Result (List Migration)) (hash : ℕ → String → String)
    (order : List TenantRow → List TenantRow) (passes : Bool) (verify : String → Verified)
    (req : Request) (call : TenantCall) (s : Db)
    → ¬ AsSuperAdmin (authenticate_token verify req)
    → Refused (tenants_handle pending hash order passes verify req call) s
unfolding tenants_handle
tenants_handle-Refused pending hash order passes verify req call s n =
    public_scoped-Refused (tenant_route pending hash order passes call) s verify req n
