-- ===== src/Tenants/Actions.antt =====
-- Every route under /tenants keeps to a preorder on states if its two updates and the creation of a
-- tenant do.
use real_estate_multi_tenant.Prelude.{ℕ, ℤ, String, Bool, true, List, Option, none, some, length}
use real_estate_multi_tenant.Db.{TenantRow, Db, Result, tenants, update_where}
use real_estate_multi_tenant.Db.Respects.{
  Preorder, Respects, Respects-bind, Respects-pure, respects_rules,
}
use real_estate_multi_tenant.Access.Request.{Verified, Request, AuthUser}
use real_estate_multi_tenant.Access.Scoped.{
  Keeps, Contained, Contained-respond, Keeps-member_route, Keeps-plain, Keeps-with_body,
  Keeps-public_scoped,
}
use real_estate_multi_tenant.Schemas.Migrations.{Migration}
use real_estate_multi_tenant.Tenants.Dto.{CreateTenantDto, UpdateTenantDto}
use real_estate_multi_tenant.Tenants.Repository
use real_estate_multi_tenant.Tenants.Repository.{
  fields, active, has_id, new_row, set_change, still_accepts,
}
use real_estate_multi_tenant.Tenants.Service
use real_estate_multi_tenant.Tenants.Service.{
  admin_row, refuse_taken, tenant_data, temp_schema_name, creation_error, create_admin_user,
  create_in_transaction, abort, publish, finish, conclude, transact, read_again,
}
use real_estate_multi_tenant.Tenants.Controller
use real_estate_multi_tenant.Tenants.Routes.{
  TenantCall, create_call, list_call, get_call, update_call, activate_call, deactivate_call, one,
  many, tenant_route, tenants_handle,
}

module _ (pending : String → Db → Result (List Migration)) (hash : ℕ → String → String) where
  pub record RouteWrites (R : Db → Db → Type 0) : Type 0 where
    pub setting :
        (id : ℕ) (dto : UpdateTenantDto)
        → Respects R
            (update_where tenants "public" (has_id id) still_accepts (set_change (fields dto)))
    pub switching :
        (id : ℕ) (b : Bool)
        → Respects R
            (update_where tenants "public" (has_id id) still_accepts (set_change (active b)))
    pub creating : (dto : CreateTenantDto) → Respects R (Service.create_tenant pending hash dto)

module _ {R : Db → Db → Type 0} (P : Preorder R) (pending : String → Db → Result (List Migration))
    (hash : ℕ → String → String) (W : RouteWrites pending hash R) where
  find_by_id-Respects : (id : ℕ) → Respects R (Repository.find_by_id id)
  unfolding Repository.find_by_id
  find_by_id-Respects id = search (P, respects_rules)

  set-Respects : (id : ℕ) (dto : UpdateTenantDto) → Respects R (Repository.update id (fields dto))
  unfolding Repository.update
  set-Respects id dto = W.setting id dto

  activate-Respects : (id : ℕ) → Respects R (Repository.activate id)
  unfolding Repository.activate
  activate-Respects id =
      Respects-bind P _ _ (W.switching id true) (λ rows. Respects-pure P (length rows))

  deactivate-Respects : (id : ℕ) → Respects R (Repository.deactivate id)
  unfolding Repository.deactivate
  deactivate-Respects id =
      Respects-bind P _ _ (W.switching id Bool.false) (λ rows. Respects-pure P (length rows))

  found-Respects : (t : Option TenantRow) → Respects R (Service.found t)
  unfolding Service.found
  found-Respects none = search (P, respects_rules)
  found-Respects (some t) = search (P, respects_rules)

  ruleset tenant_rules = (
    respects_rules, find_by_id-Respects, found-Respects, set-Respects, activate-Respects,
    deactivate-Respects,
  )

  get_all_tenants-Respects :
      (order : List TenantRow → List TenantRow) (active_only : Bool) (page limit : Option ℤ)
      → Respects R (Service.get_all_tenants order active_only page limit)
  unfolding Service.get_all_tenants Repository.find_all Repository.count
  get_all_tenants-Respects order active_only page limit = search (P, respects_rules)

  get_tenant_by_id-Respects : (id : ℕ) → Respects R (Service.get_tenant_by_id id)
  unfolding Service.get_tenant_by_id
  get_tenant_by_id-Respects id = search (P, tenant_rules)

  update_tenant-Respects :
      (id : ℕ) (dto : UpdateTenantDto) → Respects R (Service.update_tenant id dto)
  unfolding Service.update_tenant
  update_tenant-Respects id dto = search (P, tenant_rules) depth 8

  activate_tenant-Respects : (id : ℕ) → Respects R (Service.activate_tenant id)
  unfolding Service.activate_tenant
  activate_tenant-Respects id = search (P, tenant_rules) depth 8

  deactivate_tenant-Respects : (id : ℕ) → Respects R (Service.deactivate_tenant id)
  unfolding Service.deactivate_tenant
  deactivate_tenant-Respects id = search (P, tenant_rules) depth 8

  create_tenant-Contained :
      (dto : CreateTenantDto) → Contained R (Controller.create_tenant pending hash dto)
  unfolding Controller.create_tenant
  create_tenant-Contained dto = search (P, respects_rules, Contained-respond, W.creating)

  get_all_tenants-Contained :
      (order : List TenantRow → List TenantRow) (active_only : Bool) (page limit : Option ℤ)
      → Contained R (Controller.get_all_tenants order active_only page limit)
  unfolding Controller.get_all_tenants
  get_all_tenants-Contained order active_only page limit =
      search (P, respects_rules, Contained-respond, get_all_tenants-Respects)

  get_tenant_by_id-Contained : (id : ℕ) → Contained R (Controller.get_tenant_by_id id)
  unfolding Controller.get_tenant_by_id
  get_tenant_by_id-Contained id =
      search (P, respects_rules, Contained-respond, get_tenant_by_id-Respects)

  update_tenant-Contained :
      (id : ℕ) (dto : UpdateTenantDto) → Contained R (Controller.update_tenant id dto)
  unfolding Controller.update_tenant
  update_tenant-Contained id dto =
      search (P, respects_rules, Contained-respond, update_tenant-Respects)

  activate_tenant-Contained : (id : ℕ) → Contained R (Controller.activate_tenant id)
  unfolding Controller.activate_tenant
  activate_tenant-Contained id =
      search (P, respects_rules, Contained-respond, activate_tenant-Respects)

  deactivate_tenant-Contained : (id : ℕ) → Contained R (Controller.deactivate_tenant id)
  unfolding Controller.deactivate_tenant
  deactivate_tenant-Contained id =
      search (P, respects_rules, Contained-respond, deactivate_tenant-Respects)

  module _ (order : List TenantRow → List TenantRow) (passes : Bool) where
    tenant_route-Keeps :
        (call : TenantCall) (user : AuthUser)
        → Keeps R (tenant_route pending hash order passes call user)
    unfolding tenant_route
    tenant_route-Keeps (create_call dto) user =
        Keeps-member_route P _ _ _ user _
          (Keeps-with_body P one _ (Keeps-plain P _ (create_tenant-Contained dto)))
    tenant_route-Keeps (list_call active_only page limit) user = Keeps-member_route P _ _ _ user _ (
        Keeps-with_body P many _
          (Keeps-plain P _ (get_all_tenants-Contained order active_only page limit)))
    tenant_route-Keeps (get_call id) user =
        Keeps-member_route P _ _ _ user _
          (Keeps-with_body P one _ (Keeps-plain P _ (get_tenant_by_id-Contained id)))
    tenant_route-Keeps (update_call id dto) user =
        Keeps-member_route P _ _ _ user _
          (Keeps-with_body P one _ (Keeps-plain P _ (update_tenant-Contained id dto)))
    tenant_route-Keeps (activate_call id) user =
        Keeps-member_route P _ _ _ user _
          (Keeps-with_body P one _ (Keeps-plain P _ (activate_tenant-Contained id)))
    tenant_route-Keeps (deactivate_call id) user =
        Keeps-member_route P _ _ _ user _
          (Keeps-with_body P one _ (Keeps-plain P _ (deactivate_tenant-Contained id)))

    pub tenants_handle-Keeps :
        (verify : String → Verified) (req : Request) (call : TenantCall)
        → Keeps R (tenants_handle pending hash order passes verify req call)
    unfolding tenants_handle
    tenants_handle-Keeps verify req call =
        Keeps-public_scoped P verify req _ (tenant_route-Keeps call)
