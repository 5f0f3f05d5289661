-- ===== src/Access/TenantResolver.antt =====
-- src/middleware/tenantResolver.js
use real_estate_multi_tenant.Prelude.{
  ℕ, String, Bool, List, [], ◌∷◌, Option, none, some, ◌==◌, filter, str_eq, if◌then◌else◌,
}
use real_estate_multi_tenant.Errors.{Error, unauthorized, forbidden}
use real_estate_multi_tenant.Db.{TenantRow, M, pure, raise, ◌>>=◌, attempt, run}
use real_estate_multi_tenant.Access.Roles.{super_admin}
use real_estate_multi_tenant.Access.Request.{AuthUser, Scope, Step, next, deny}

-- SET search_path TO …: the first schema of the path.
unfoldable pub set_search_path : String → M (Unit {0})
unfolding run
set_search_path name = run λ s. (some tt, record s { search_path = name })

-- SELECT id, is_active, schema_name FROM public.tenants WHERE p
unfoldable pub select_tenants : (TenantRow → Bool) → M (List TenantRow)
unfolding run filter
select_tenants p = run λ s. (some (filter p s.tenants.rows), s)

-- `tenants[0]`, if it exists and is active.
abbrev pub active_tenant : List TenantRow → M TenantRow
active_tenant [] = raise (forbidden "Tenant not found")
active_tenant (tenant ∷ _) =
    if tenant.is_active
    then pure tenant
    else raise (forbidden "Tenant account is deactivated. Please contact support.")

-- `req.user?.role === 'Super Admin'`
abbrev pub is_super : Option String → Bool
is_super none = Bool.false
is_super (some role) = str_eq role super_admin

abbrev pub tenant_scope : Option ℕ → Option String → M Scope
tenant_scope (some tenant_id) (some schema) = do
  tenants ← select_tenants (λ t. t.id == tenant_id)
  tenant ← active_tenant tenants
  done ← set_search_path schema
  pure (record { tenant_schema = schema; tenant_id = some tenant_id })
tenant_scope _ _ = raise (unauthorized "Tenant information missing in authentication token")

abbrev pub public_scope : M Scope
public_scope = do
  done ← set_search_path "public"
  pure (record { tenant_schema = "public"; tenant_id = none })

abbrev pub denied : Error → Step Scope
denied (forbidden m) = deny 403 m
denied (unauthorized m) = deny 401 m
denied e = deny 500 "Failed to resolve tenant context"

unfoldable pub tenant_resolver : AuthUser → M (Step Scope)
unfolding select_tenants set_search_path
tenant_resolver user =
    attempt
      (do
        scope ←
            if is_super user.role
            then public_scope
            else tenant_scope user.tenant_id user.tenant_schema
        pure (next scope))
      (λ e. pure (denied e))

unfoldable pub use_public_schema : M (Step Scope)
unfolding set_search_path
use_public_schema =
    attempt (do scope ← public_scope; pure (next scope))
      (λ e. pure (deny 500 "Failed to set database context"))
