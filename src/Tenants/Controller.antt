-- ===== src/Tenants/Controller.antt =====
-- src/modules/tenants/tenant.controller.js: `id` is `req.params.id`.
use real_estate_multi_tenant.Prelude.{ℕ, ℤ, String, Bool, List, Option, none, some}
use real_estate_multi_tenant.Errors.{Error, not_found, conflict}
use real_estate_multi_tenant.Db.{TenantRow, Db, Result, M, pure, ◌>>=◌}
use real_estate_multi_tenant.Http.{Reply, Handled, send_success, send_created, send_error, respond}
use real_estate_multi_tenant.Schemas.Migrations.{Migration}
use real_estate_multi_tenant.Tenants.Dto.{CreateTenantDto, UpdateTenantDto}
use real_estate_multi_tenant.Tenants.Service
use real_estate_multi_tenant.Tenants.Service.{TenantPage, TenantStats}

abbrev pub internal_error : {A : Type 0} → Error → Reply A
internal_error e = send_error e 500

abbrev pub conflict_or_500 : {A : Type 0} → Error → Reply A
conflict_or_500 (conflict m) = send_error (conflict m) 409
conflict_or_500 e = send_error e 500

abbrev pub not_found_or_500 : {A : Type 0} → Error → Reply A
not_found_or_500 (not_found m) = send_error (not_found m) 404
not_found_or_500 e = send_error e 500

-- `sendSuccess(res, await m, text)`
abbrev answer : {A : Type 0} → M A → String → (Error → Reply A) → Db → Handled A × Db
answer m text = respond (do a ← m; pure (send_success (some a) text, none))

unfoldable pub create_tenant :
    (String → Db → Result (List Migration))
    → (ℕ → String → String)
    → CreateTenantDto
    → Db
    → Handled TenantRow × Db
create_tenant pending hash dto =
    respond
      (do
        tenant ← Service.create_tenant pending hash dto
        pure (send_created tenant "Tenant created successfully with dedicated schema", none))
      conflict_or_500

unfoldable pub get_all_tenants :
    (List TenantRow → List TenantRow) → Bool → Option ℤ → Option ℤ → Db → Handled TenantPage × Db
get_all_tenants order active_only page limit =
    answer (Service.get_all_tenants order active_only page limit) "Tenants retrieved successfully"
      internal_error

unfoldable pub get_tenant_by_id : ℕ → Db → Handled TenantRow × Db
get_tenant_by_id id =
    answer (Service.get_tenant_by_id id) "Tenant retrieved successfully" not_found_or_500

unfoldable pub update_tenant : ℕ → UpdateTenantDto → Db → Handled TenantRow × Db
update_tenant id dto =
    answer (Service.update_tenant id dto) "Tenant updated successfully" not_found_or_500

unfoldable pub activate_tenant : ℕ → Db → Handled TenantRow × Db
activate_tenant id =
    answer (Service.activate_tenant id) "Tenant activated successfully" not_found_or_500

unfoldable pub deactivate_tenant : ℕ → Db → Handled TenantRow × Db
deactivate_tenant id =
    answer (Service.deactivate_tenant id) "Tenant deactivated successfully" not_found_or_500

unfoldable pub get_tenant_stats : Db → Handled TenantStats × Db
get_tenant_stats =
    answer Service.get_tenant_stats "Tenant statistics retrieved successfully" internal_error
