-- ===== src/Access/Scoped.antt =====
-- A route behind the tenant resolver changes the schema of its user, and no other table.
use real_estate_multi_tenant.Prelude.{
  String, ◌≡◌, ◌≢◌, refl, ap, ◌∙◌, sym, Bool, Option, some, inl, inr, Bool-cases, str_eq, eq_iff,
  arith,
}
use real_estate_multi_tenant.Db.{Db, M, Result, ok, err}
use real_estate_multi_tenant.Db.Confined.{Elsewhere, Elsewhere-preorder}
use real_estate_multi_tenant.Db.Respects.{Preorder, Respects}
use real_estate_multi_tenant.Db.Returns.{OkHolds}
use real_estate_multi_tenant.Http.{Reply, Handled, respond}
use real_estate_multi_tenant.Errors.{Error}
use real_estate_multi_tenant.Access.Roles.{Resource, Action}
use real_estate_multi_tenant.Access.Request.{Verified, Request, AuthUser, Scope, Step, next, deny}
use real_estate_multi_tenant.Access.Auth.{authenticate_token}
use real_estate_multi_tenant.Access.Rbac.{check_permission, require_admin, require_super_admin}
use real_estate_multi_tenant.Access.TenantResolver.{tenant_resolver, use_public_schema}
use real_estate_multi_tenant.Access.Pipeline.{
  Handler, after, proceed, scoped, public_scoped, validate, admin_route, member_route, audited,
  plain, with_body,
}
use real_estate_multi_tenant.Access.Isolation.{
  schema_of_step, request_schema, InScope, tenant_resolver-Respects, tenant_resolver-InScope,
  audit_log-Respects, use_public_schema-Respects, Logging,
}

-- The tables of one schema, and the tenants, are what they were.
pub record Untouched (other : String) (s s' : Db) : Type 0 where
  pub tenants : s'.tenants ≡ s.tenants
  pub users : s'.users other ≡ s.users other
  pub projects : s'.projects other ≡ s.projects other
  pub units : s'.units other ≡ s.units other
  pub audit_logs : s'.audit_logs other ≡ s.audit_logs other

pub Untouched-refl : (other : String) (s : Db) → Untouched other s s
Untouched-refl other s = record {
  tenants = refl;
  users = refl;
  projects = refl;
  units = refl;
  audit_logs = refl;
}

Untouched-Elsewhere :
    {name other : String} {s s' : Db} → other ≢ name → Elsewhere name s s' → Untouched other s s'
Untouched-Elsewhere n h = record {
  tenants = h.tenants;
  users = h.users _ n;
  projects = h.projects _ n;
  units = h.units _ n;
  audit_logs = h.audit_logs _ n;
}

Untouched-trans :
    {other : String} {s t u : Db} → Untouched other s t → Untouched other t u → Untouched other s u
Untouched-trans h k = record {
  tenants = k.tenants ∙ h.tenants;
  users = k.users ∙ h.users;
  projects = k.projects ∙ h.projects;
  units = k.units ∙ h.units;
  audit_logs = k.audit_logs ∙ h.audit_logs;
}

another : (other : String) → (name : String) × (other ≢ name)
another other = elim (Bool-cases (str_eq other "a")) [
  | inl same ↦ ("b", ground (arith, eq_iff other "a", eq_iff "a" "b"))
  | inr differs ↦ ("a", ground (arith, eq_iff other "a"))
]

-- A handler that keeps to a preorder on states.
pub record Keeps (R : Db → Db → Type 0) {B : Type 0} (h : Handler B) : Type 0 where
  pub at : (s : Db) → R s (h s).1

-- So does a controller.
pub record Contained (R : Db → Db → Type 0) {B : Type 0} (controller : Db → Handled B × Db)
    : Type 0 where
  pub at : (s : Db) → R s (controller s).1

pub Contained-respond :
    {R : Db → Db → Type 0} {B : Type 0} (m : M (Handled B)) (on_error : Error → Reply B)
    → Respects R m
    → Contained R (respond m on_error)
Contained-respond m on_error h = record { at = h.at }

module _ {R : Db → Db → Type 0} (P : Preorder R) {A B : Type 0} where
  pub Keeps-after :
      (step : Step A) (k : A → Handler B) → ((a : A) → Keeps R (k a)) → Keeps R (after step k)
  Keeps-after (next a) k h = record { at = λ s. (h a).at s }
  Keeps-after (deny status text) k h = record { at = P.refl }

  pub Keeps-with_body : (f : A → B) (h : Handler A) → Keeps R h → Keeps R (with_body f h)
  Keeps-with_body f h k = record { at = k.at }

module _ {R : Db → Db → Type 0} (P : Preorder R) {B : Type 0} where
  pub Keeps-admin_route :
      (valid : Bool) (resource : Resource) (action : Action) (user : AuthUser) (k : Handler B)
      → Keeps R k
      → Keeps R (admin_route valid resource action user k)
  unfolding admin_route
  Keeps-admin_route valid resource action user k h =
      Keeps-after P (require_admin (some user)) _ λ _.
        Keeps-after P (validate valid) _
          λ _. Keeps-after P (check_permission resource action (some user)) _ λ _. h

  pub Keeps-member_route :
      (valid : Bool) (resource : Resource) (action : Action) (user : AuthUser) (k : Handler B)
      → Keeps R k
      → Keeps R (member_route valid resource action user k)
  unfolding member_route
  Keeps-member_route valid resource action user k h =
      Keeps-after P (validate valid) _
        λ _. Keeps-after P (check_permission resource action (some user)) _ λ _. h

  pub Keeps-plain :
      (controller : Db → Handled B × Db) → Contained R controller → Keeps R (plain controller)
  Keeps-plain controller h = record { at = h.at }

  -- The state of a request whose controller and audit log keep to the preorder.
  pub Keeps-audited :
      (entity action : String) (req : Request) (user : AuthUser) (scope : Scope)
      (controller : Db → Handled B × Db)
      → Logging R scope.tenant_schema
      → Contained R controller
      → Keeps R (audited entity action req user scope controller)
  unfolding audited
  Keeps-audited entity action req user scope controller writes h = record {
    at = λ s. P.trans s _ _ (h.at s) (
        (audit_log-Respects P entity action req user scope (controller s).0.1 writes).at
          (controller s).1);
  }

  proceed-Keeps :
      (r : Result (Step Scope)) (k : Scope → Handler B)
      → ((scope : Scope) → Keeps R (k scope))
      → (s : Db) → R s (proceed r k s).1
  proceed-Keeps (ok (next scope)) k keeps s = (keeps scope).at s
  proceed-Keeps (ok (deny status text)) k keeps s = P.refl s
  proceed-Keeps (err e) k keeps s = P.refl s

  pub Keeps-scoped :
      (verify : String → Verified) (req : Request) (k : AuthUser → Scope → Handler B)
      → ((user : AuthUser) (scope : Scope) → Keeps R (k user scope))
      → Keeps R (scoped verify req k)
  unfolding scoped
  Keeps-scoped verify req k keeps = Keeps-after P (authenticate_token verify req) _ λ user. record {
    at = λ s.
        P.trans s _ _ ((tenant_resolver-Respects P user).at s) (
          proceed-Keeps (tenant_resolver user s).0 (k user) (keeps user)
            (tenant_resolver user s).1);
  }

  pub Keeps-public_scoped :
      (verify : String → Verified) (req : Request) (k : AuthUser → Handler B)
      → ((user : AuthUser) → Keeps R (k user))
      → Keeps R (public_scoped verify req k)
  unfolding public_scoped
  Keeps-public_scoped verify req k keeps = Keeps-after P (authenticate_token verify req) _ λ user.
      Keeps-after P (require_super_admin (some user)) _ λ _. record {
        at = λ s. P.trans s _ _ ((use_public_schema-Respects P).at s) (
            proceed-Keeps (use_public_schema s).0 (λ scope. k user) (λ scope. keeps user)
              (use_public_schema s).1);
      }

module _ {B : Type 0} {other : String} where
  proceed-Untouched :
      {schema : Option String} (r : Result (Step Scope)) (k : Scope → Handler B)
      → OkHolds (InScope schema) r
      → schema ≢ some other
      → ((scope : Scope) → Keeps (Elsewhere scope.tenant_schema) (k scope))
      → (s : Db) → Untouched other s (proceed r k s).1
  proceed-Untouched (ok (next scope)) k h n keeps s =
      Untouched-Elsewhere (λ e. n (h ∙ ap some (sym e))) ((keeps scope).at s)
  proceed-Untouched (ok (deny status text)) k h n keeps s = Untouched-refl other s
  proceed-Untouched (err e) k h n keeps s = Untouched-refl other s

module _ {B : Type 0} (k : AuthUser → Scope → Handler B) (other : String) where
  after-Untouched :
      (step : Step AuthUser)
      → schema_of_step step ≢ some other
      → ((user : AuthUser) (scope : Scope) → Keeps (Elsewhere scope.tenant_schema) (k user scope))
      → (s : Db)
      → Untouched other s
          (after step
            (λ user s'. let (r, s'') = tenant_resolver user s' in proceed r (k user) s'')
            s).1
  after-Untouched (deny status text) n keeps s = Untouched-refl other s
  after-Untouched (next user) n keeps s =
      let (r, s'') = tenant_resolver user s in
      Untouched-trans
        (let (name, differs) = another other in
          Untouched-Elsewhere differs
            ((tenant_resolver-Respects (Elsewhere-preorder name) user).at s))
        (proceed-Untouched r (k user) ((tenant_resolver-InScope user).at s) n (keeps user) s'')

  -- Behind the resolver, a handler that keeps to the schema it is given leaves every schema but
  -- that of the request untouched.
  pub scoped-Untouched :
      (verify : String → Verified) (req : Request)
      → ((user : AuthUser) (scope : Scope) → Keeps (Elsewhere scope.tenant_schema) (k user scope))
      → request_schema verify req ≢ some other
      → (s : Db) → Untouched other s (scoped verify req k s).1
  unfolding scoped
  scoped-Untouched verify req keeps n s = after-Untouched (authenticate_token verify req) n keeps s
