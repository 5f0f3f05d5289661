-- ===== src/Access/Isolation.antt =====
-- The middleware in front of the controllers and behind them: what it touches, and which schema a
-- request may reach.
use real_estate_multi_tenant.Prelude.{
  ℕ, String, ◌≡◌, refl, Bool, List, [], ◌∷◌, filter, ◌==◌, Option, none, some, if◌then◌else◌,
}
use real_estate_multi_tenant.Errors.{Error, forbidden, unauthorized}
use real_estate_multi_tenant.Db.{insert_into, audit_logs, AuditRow, Table, Db, TenantRow}
use real_estate_multi_tenant.Db.Respects.{
  Preorder, Respects, Respects-run, Respects-pure, Respects-if, Respects-insert, respects_rules,
}
use real_estate_multi_tenant.Db.Returns.{
  Any, Returns-Any, Returns, Returns-pure, Returns-raise, Returns-if, Returns-attempt, Returns-bind,
}
use real_estate_multi_tenant.Http.{AuditData}
use real_estate_multi_tenant.Access.Request.{Verified, Request, AuthUser, Scope, Step, next, deny}
use real_estate_multi_tenant.Access.Auth.{authenticate_token}
use real_estate_multi_tenant.Access.TenantResolver.{
  set_search_path, select_tenants, tenant_resolver, is_super, active_tenant, tenant_scope,
  public_scope, denied, use_public_schema,
}
use real_estate_multi_tenant.Access.AuditLogger.{
  LogData, audit_row, is_audit_action, create_audit_log, audit_log,
}

-- The write of the audit log of a schema keeps to a relation.
abbrev pub Logging : (Db → Db → Type 0) → String → Type 0
Logging R schema =
    (log : LogData) → Respects R (insert_into audit_logs schema is_audit_action (audit_row log))

module _ {R : Db → Db → Type 0} (P : Preorder R) where
  pub set_search_path-Respects : (path : String) → Respects R (set_search_path path)
  unfolding set_search_path
  set_search_path-Respects path =
      Respects-run P (λ s. (some tt, record s { search_path = path })) (λ s. P.path s path)

  pub select_tenants-Respects : (p : TenantRow → Bool) → Respects R (select_tenants p)
  unfolding select_tenants
  select_tenants-Respects p = Respects-run P (λ s. (some (filter p s.tenants.rows), s)) P.refl

  active_tenant-Respects : (rows : List TenantRow) → Respects R (active_tenant rows)
  active_tenant-Respects [] = search (P, respects_rules)
  active_tenant-Respects (t ∷ _) = search (P, respects_rules)

  ruleset resolver_rules =
      (respects_rules, set_search_path-Respects, select_tenants-Respects, active_tenant-Respects)

  tenant_scope-Respects :
      (id : Option ℕ) (schema : Option String) → Respects R (tenant_scope id schema)
  tenant_scope-Respects (some id) (some schema) = search (P, resolver_rules)
  tenant_scope-Respects (some id) none = search (P, respects_rules)
  tenant_scope-Respects none schema = search (P, respects_rules)

  pub tenant_resolver-Respects : (user : AuthUser) → Respects R (tenant_resolver user)
  unfolding tenant_resolver
  tenant_resolver-Respects user = search (P, resolver_rules, tenant_scope-Respects)

  pub use_public_schema-Respects : Respects R use_public_schema
  unfolding use_public_schema
  use_public_schema-Respects = search (P, resolver_rules)

  -- A preorder that does not look at the audit log allows every entry.
  pub Logging-anything :
      (schema : String)
      → ((s : Db) (t : Table AuditRow) → R s (audit_logs.write schema t s))
      → Logging R schema
  Logging-anything schema writes log =
      Respects-insert P audit_logs schema is_audit_action (audit_row log) (λ s t e c. writes s _)
        (λ s t e. writes s _)

  create_audit_log-Respects :
      (schema : String)
      → Logging R schema
      → (log : LogData) → Respects R (create_audit_log log schema)
  unfolding create_audit_log
  create_audit_log-Respects schema W log = search (P, respects_rules, set_search_path-Respects, W)

  pub audit_log-Respects :
      (entity action : String) (req : Request) (user : AuthUser) (scope : Scope)
      (audited : Option AuditData)
      → Logging R scope.tenant_schema
      → Respects R (audit_log entity action req user scope audited)
  unfolding audit_log
  audit_log-Respects entity action req user scope none W = search (P, respects_rules)
  audit_log-Respects entity action req user scope (some a) W =
      Respects-if P _ _ _ (Respects-pure P tt) (create_audit_log-Respects scope.tenant_schema W _)

-- The schema that a user may reach: that of the token, or `public` for a Super Admin.
abbrev pub schema_of : AuthUser → Option String
schema_of user = if is_super user.role then some "public" else user.tenant_schema

abbrev pub schema_of_step : Step AuthUser → Option String
schema_of_step (next user) = schema_of user
schema_of_step (deny status text) = none

abbrev pub request_schema : (String → Verified) → Request → Option String
request_schema verify req = schema_of_step (authenticate_token verify req)

abbrev pub InScope : Option String → Step Scope → Type 0
InScope schema (next scope) = schema ≡ some scope.tenant_schema
InScope schema (deny status text) = Unit

abbrev HasSchema : Option String → Scope → Type 0
HasSchema schema scope = schema ≡ some scope.tenant_schema

public_scope-HasSchema : Returns (HasSchema (some "public")) public_scope
public_scope-HasSchema =
    Returns-bind Any (set_search_path "public") _ (Returns-Any _) (λ _ _. Returns-pure _ refl)

tenant_scope-HasSchema :
    (id : Option ℕ) (schema : Option String) → Returns (HasSchema schema) (tenant_scope id schema)
tenant_scope-HasSchema (some id) (some schema) =
    Returns-bind Any (select_tenants (λ t. t.id == id)) _ (Returns-Any _) λ rows _.
      Returns-bind Any (active_tenant rows) _ (Returns-Any _) λ tenant _.
        Returns-bind Any (set_search_path schema) _ (Returns-Any _) λ _ _. Returns-pure _ refl
tenant_scope-HasSchema (some id) none = Returns-raise _
tenant_scope-HasSchema none schema = Returns-raise _

denied-InScope : (schema : Option String) (e : Error) → InScope schema (denied e)
denied-InScope schema (forbidden m) = tt
denied-InScope schema (unauthorized m) = tt
denied-InScope schema _ = tt

-- The resolver lets a request through to the schema of its user only.
pub tenant_resolver-InScope :
    (user : AuthUser) → Returns (InScope (schema_of user)) (tenant_resolver user)
unfolding tenant_resolver
tenant_resolver-InScope user =
    Returns-attempt _ _
      (Returns-bind (HasSchema (schema_of user)) _ _
        (Returns-if (is_super user.role) _ _ (λ e. rw e public_scope-HasSchema)
          (λ e. rw e (tenant_scope-HasSchema user.tenant_id user.tenant_schema)))
        (λ scope h. Returns-pure _ h))
      (λ e. Returns-pure _ (denied-InScope (schema_of user) e))
