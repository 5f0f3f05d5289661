-- ===== src/Tenants/Routes.antt =====
-- src/modules/tenants/tenant.routes.js: `passes` is the answer of the validation schema of the route.
use real_estate_multi_tenant.Prelude.{ℕ, ℤ, String, Bool, true, List, Option}
use real_estate_multi_tenant.Db.{TenantRow, Db, Result}
use real_estate_multi_tenant.Access.Roles.{Action}
use real_estate_multi_tenant.Access.Roles
use real_estate_multi_tenant.Access.Request.{Verified, Request, AuthUser}
use real_estate_multi_tenant.Access.Pipeline.{
  Handler, public_scoped, member_route, plain, with_body,
}
use real_estate_multi_tenant.Schemas.Migrations.{Migration}
use real_estate_multi_tenant.Tenants.Dto.{CreateTenantDto, UpdateTenantDto}
use real_estate_multi_tenant.Tenants.Service.{TenantPage}
use real_estate_multi_tenant.Tenants.Controller

pub data TenantCall : Type 0 where
  create_call : CreateTenantDto → TenantCall
  list_call : Bool → Option ℤ → Option ℤ → TenantCall
  get_call : ℕ → TenantCall
  update_call : ℕ → UpdateTenantDto → TenantCall
  activate_call : ℕ → TenantCall
  deactivate_call : ℕ → TenantCall

-- The data of a reply: a tenant, or a page of the listing.
pub data TenantBody : Type 0 where
  one : TenantRow → TenantBody
  many : TenantPage → TenantBody

module _ (pending : String → Db → Result (List Migration)) (hash : ℕ → String → String)
    (order : List TenantRow → List TenantRow) (passes : Bool) where
  -- The listing has no validation, which stands here as one that passes.
  unfoldable pub tenant_route : TenantCall → AuthUser → Handler TenantBody
  tenant_route (create_call dto) user =
      member_route passes Roles.tenants Roles.create user
        (with_body one (plain (Controller.create_tenant pending hash dto)))
  tenant_route (list_call active_only page limit) user =
      member_route true Roles.tenants Roles.read user
        (with_body many (plain (Controller.get_all_tenants order active_only page limit)))
  tenant_route (get_call id) user =
      member_route passes Roles.tenants Roles.read user
        (with_body one (plain (Controller.get_tenant_by_id id)))
  tenant_route (update_call id dto) user =
      member_route passes Roles.tenants Roles.update user
        (with_body one (plain (Controller.update_tenant id dto)))
  tenant_route (activate_call id) user =
      member_route passes Roles.tenants Roles.activate user
        (with_body one (plain (Controller.activate_tenant id)))
  tenant_route (deactivate_call id) user =
      member_route passes Roles.tenants Roles.deactivate user
        (with_body one (plain (Controller.deactivate_tenant id)))

  -- Every route stands behind authentication, `requireSuperAdmin` and `usePublicSchema`.
  unfoldable pub tenants_handle : (String → Verified) → Request → TenantCall → Handler TenantBody
  tenants_handle verify req call = public_scoped verify req (tenant_route call)
