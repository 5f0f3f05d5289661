-- ===== src/Access/Pipeline.antt =====
-- How the routers chain the middleware: the first answer ends the request, and what stands behind
-- it does not run.
use mathlib.Core.Option
use real_estate_multi_tenant.Prelude.{String, Bool, some, if◌then◌else◌}
use real_estate_multi_tenant.Db.{Db, M, Result, ok, err}
use real_estate_multi_tenant.Http.{Reply, success, failure, Handled}
use real_estate_multi_tenant.Access.Roles.{Resource, Action}
use real_estate_multi_tenant.Access.Request.{Verified, Request, AuthUser, Scope, Step, next, deny}
use real_estate_multi_tenant.Access.Auth.{authenticate_token}
use real_estate_multi_tenant.Access.Rbac.{check_permission, require_admin, require_super_admin}
use real_estate_multi_tenant.Access.TenantResolver.{tenant_resolver, use_public_schema}
use real_estate_multi_tenant.Access.AuditLogger.{audit_log}

-- A handler at the end of a chain: a reply and the state that it leaves.
abbrev pub Handler : Type 0 → Type 0
Handler B = Db → Reply B × Db

module _ {A B : Type 0} where
  -- A middleware that runs no statement.
  abbrev pub after : Step A → (A → Handler B) → Handler B
  after (next a) k s = k a s
  after (deny status text) k s = (failure status text, s)

  abbrev pub proceed : Result (Step A) → (A → Handler B) → Handler B
  proceed (ok step) k s = after step k s
  proceed (err e) k s = (failure 500 "Internal server error", s)

  -- A middleware that runs statements.
  abbrev pub after_statements : M (Step A) → (A → Handler B) → Handler B
  after_statements m k s = let (r, s') = m s in proceed r k s'

-- `router.use(authenticateToken); router.use(tenantResolver);`
unfoldable pub scoped :
    {B : Type 0} → (String → Verified) → Request → (AuthUser → Scope → Handler B) → Handler B
scoped verify req k =
    after (authenticate_token verify req)
      λ user. after_statements (tenant_resolver user) λ scope. k user scope

-- `router.use(authenticateToken); router.use(requireSuperAdmin); router.use(usePublicSchema);`
unfoldable pub public_scoped :
    {B : Type 0} → (String → Verified) → Request → (AuthUser → Handler B) → Handler B
public_scoped verify req k = after (authenticate_token verify req) λ user.
    after (require_super_admin (some user)) λ _. after_statements use_public_schema λ scope. k user

-- `validate(schema)`: the answer of the validation library is `valid`.
unfoldable pub validate : Bool → Step (Unit {0})
validate valid = if valid then next tt else deny 400 "Validation failed."

-- A route for administrators: `requireAdmin, validate(…), checkPermission(…), controller`.
unfoldable pub admin_route :
    {B : Type 0} → Bool → Resource → Action → AuthUser → Handler B → Handler B
admin_route valid resource action user k =
    after (require_admin (some user))
      λ _. after (validate valid) λ _. after (check_permission resource action (some user)) λ _. k

-- `validate(…), checkPermission(…), controller`
unfoldable pub member_route :
    {B : Type 0} → Bool → Resource → Action → AuthUser → Handler B → Handler B
member_route valid resource action user k =
    after (validate valid) λ _. after (check_permission resource action (some user)) λ _. k

-- `controller, auditLog(entity, action)`: the log is written after the reply.
unfoldable pub audited :
    {B : Type 0} → String → String → Request → AuthUser → Scope → (Db → Handled B × Db) → Handler B
audited entity action req user scope controller s =
    let (handled, s') = controller s in
    (handled.0, (audit_log entity action req user scope handled.1 s').1)

-- A controller with no audit log behind it.
abbrev pub plain : {B : Type 0} → (Db → Handled B × Db) → Handler B
plain controller s = let (handled, s') = controller s in (handled.0, s')

-- The data of a reply, as one of the kinds of data that a router sends.
module _ {A B : Type 0} (f : A → B) where
  abbrev pub with_data : Reply A → Reply B
  with_data (success c m body) = success c m (Option.map f body)
  with_data (failure c m) = failure c m

  abbrev pub with_body : Handler A → Handler B
  with_body h s = let (reply, s') = h s in (with_data reply, s')
