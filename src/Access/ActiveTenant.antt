-- ===== src/Access/ActiveTenant.antt =====
-- Whom the tenant resolver lets through.
use real_estate_multi_tenant.Prelude.{
  ℕ, String, ◌≡◌, refl, Bool, true, false, List, [], ◌∷◌, Option, none, some, head?, filter, ◌==◌,
  inl, inr, Bool-cases, arith,
}
use real_estate_multi_tenant.Errors.{Error, forbidden, unauthorized}
use real_estate_multi_tenant.Db.{TenantRow, Db, ok, pure, ◌>>=◌}
use real_estate_multi_tenant.Db.Returns.{
  Any, OkHolds, Returns, Returns-Any, Returns-pure, Returns-raise, Returns-if, Returns-bind,
  bind-OkHolds, attempt-OkHolds,
}
use real_estate_multi_tenant.Db.Healthy.{tick, Healthy}
use real_estate_multi_tenant.Access.Request.{AuthUser, Scope, Step, next, deny}
use real_estate_multi_tenant.Access.TenantResolver.{
  set_search_path, select_tenants, active_tenant, is_super, tenant_scope, denied, tenant_resolver,
}

-- The tenant that the resolver looks up.
abbrev pub tenant_with : ℕ → Db → Option TenantRow
tenant_with id s = head? (filter (λ t. t.id == id) s.tenants.rows)

-- The user's token names a schema and a tenant, and that tenant is there and active.
pub record Admitted (user : AuthUser) (s : Db) (scope : Scope) : Type 0 where
  pub tenant : TenantRow
  pub id : ℕ
  pub has_id : user.tenant_id ≡ some id
  pub has_schema : user.tenant_schema ≡ some scope.tenant_schema
  pub found : tenant_with id s ≡ some tenant
  pub active : tenant.is_active ≡ true

abbrev pub Lets : AuthUser → Db → Step Scope → Type 0
Lets user s (next scope) = Admitted user s scope
Lets user s (deny status text) = Unit

active_tenant-Returns :
    (rows : List TenantRow)
    → Returns (λ t. (head? rows ≡ some t) × (t.is_active ≡ true)) (active_tenant rows)
active_tenant-Returns [] = Returns-raise _
active_tenant-Returns (t ∷ rest) =
    Returns-if t.is_active _ _ (λ e. Returns-pure t (refl, e)) (λ e. Returns-raise _)

pub select_tenants-OkHolds :
    (p : TenantRow → Bool) (s : Db)
    → OkHolds (λ rows. rows ≡ filter p s.tenants.rows) (select_tenants p s).0
unfolding select_tenants
select_tenants-OkHolds p s = elim (Bool-cases (s.fails s.statements)) [
  | inl e ↦ rw e tt
  | inr e ↦ rw e refl
]

tenant_scope-Admitted :
    (user : AuthUser) (s : Db) (id : Option ℕ) (schema : Option String)
    → user.tenant_id ≡ id
    → user.tenant_schema ≡ schema
    → OkHolds (Admitted user s) (tenant_scope id schema s).0
tenant_scope-Admitted user s (some id) (some schema) hi hs =
    bind-OkHolds (λ rows. rows ≡ filter (λ t. t.id == id) s.tenants.rows)
      (select_tenants (λ t. t.id == id)) _ s (select_tenants-OkHolds _ s)
      λ rows e. Returns-bind _ (active_tenant rows) _ (active_tenant-Returns rows) λ t (h, a).
        Returns-bind Any (set_search_path schema) _ (Returns-Any _) λ _ _. Returns-pure _ (record {
          tenant = t;
          id = id;
          has_id = hi;
          has_schema = hs;
          found = rw e at h;
          active = a;
        })
tenant_scope-Admitted user s (some id) none hi hs = tt
tenant_scope-Admitted user s none schema hi hs = tt

denied-Lets : (user : AuthUser) (s : Db) (e : Error) → Lets user s (denied e)
denied-Lets user s (forbidden m) = tt
denied-Lets user s (unauthorized m) = tt
denied-Lets user s _ = tt

-- Of the users that are not Super Admins, the resolver lets through only those whose token names a
-- schema and a tenant that exists and is active, and to that schema.
pub tenant_resolver-Admitted :
    (user : AuthUser) (s : Db)
    → is_super user.role ≡ false
    → OkHolds (Lets user s) (tenant_resolver user s).0
unfolding tenant_resolver
tenant_resolver-Admitted user s n =
    let scope_of = tenant_scope user.tenant_id user.tenant_schema in
    rw n (
      attempt-OkHolds {P = Lets user s} (scope_of >>= (λ scope. pure (next scope)))
        (λ e. pure (denied e)) s
        (bind-OkHolds {P = Lets user s} (Admitted user s) scope_of (λ scope. pure (next scope)) s
          (tenant_scope-Admitted user s user.tenant_id user.tenant_schema refl refl)
          (λ scope h. Returns-pure (next scope) h))
        (λ e. Returns-pure (denied e) (denied-Lets user s e)))

pub select_tenants-eq :
    (p : TenantRow → Bool) (s : Db)
    → Healthy s
    → select_tenants p s ≡ (ok (filter p s.tenants.rows), tick s)
unfolding select_tenants
select_tenants-eq p s up = rw (up _)

set_search_path-eq : (name : String) (s : Db) → Healthy s → (set_search_path name s).0 ≡ ok tt
unfolding set_search_path
set_search_path-eq name s up = rw (up _)

active_tenant-eq :
    (rows : List TenantRow) (t : TenantRow) (s : Db)
    → head? rows ≡ some t
    → t.is_active ≡ true
    → active_tenant rows s ≡ (ok t, s)
active_tenant-eq [] t s h a = cc
active_tenant-eq (x ∷ xs) t s h a = ground arith

-- Where no statement fails, a user of an active tenant is let through.
pub tenant_resolver-lets :
    (user : AuthUser) (s : Db) (id : ℕ) (schema : String) (t : TenantRow)
    → Healthy s
    → is_super user.role ≡ false
    → user.tenant_id ≡ some id
    → user.tenant_schema ≡ some schema
    → tenant_with id s ≡ some t
    → t.is_active ≡ true
    → (tenant_resolver user s).0
      ≡ ok (next (record { tenant_schema = schema; tenant_id = some id }))
unfolding tenant_resolver
tenant_resolver-lets user s id schema t up n hi hs found active = rw (
  n,
  hi,
  hs,
  select_tenants-eq (λ t. t.id == id) s up,
  active_tenant-eq _ t (tick s) found active,
  set_search_path-eq schema (tick s) up,
)
