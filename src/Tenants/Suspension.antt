-- ===== src/Tenants/Suspension.antt =====
-- A tenant that was deactivated is refused by the resolver.
use mathlib.Core.Path.{subst}
use real_estate_multi_tenant.Prelude.{
  ℕ, ◌≡◌, refl, sym, ap, ◌∙◌, false, List, [], ◌∷◌, Option, none, some, inl, inr, Bool-cases,
  filter, head?, ◌==◌, arith,
}
use real_estate_multi_tenant.Db.{TenantRow, Table, Db, Result, ok, err, set_rows}
use real_estate_multi_tenant.Db.Returns.{OkHolds}
use real_estate_multi_tenant.Db.Ends.{Ends, Ends-same, Ends-map, Ends-bind}
use real_estate_multi_tenant.Access.Request.{AuthUser, Scope, Step, next, deny}
use real_estate_multi_tenant.Access.TenantResolver.{tenant_resolver, is_super}
use real_estate_multi_tenant.Access.ActiveTenant.{
  tenant_with, Admitted, Lets, tenant_resolver-Admitted,
}
use real_estate_multi_tenant.Tenants.Dto.{tenant_response}
use real_estate_multi_tenant.Tenants.Repository
use real_estate_multi_tenant.Tenants.Repository.{Change, active, set_change, has_id}
use real_estate_multi_tenant.Tenants.Service.{found, read_again, deactivate_tenant}
use real_estate_multi_tenant.Tenants.Registry.{SameTenants, Set, update-Set}
use real_estate_multi_tenant.Tenants.Atomic.{find-Ends}

-- The tenant of an id, if there is one, is not active.
abbrev pub Suspended : ℕ → Db → Type 0
Suspended id s = (t : TenantRow) → tenant_with id s ≡ some t → t.is_active ≡ false

set-inactive :
    (id now : ℕ) (ts : List TenantRow) (t : TenantRow)
    → head? (filter (has_id id) (set_rows (has_id id) (set_change (active false) now) ts)) ≡ some t
    → t.is_active ≡ false
unfolding filter has_id
set-inactive id now [] t e = cc
set-inactive id now (u ∷ ts) t e = elim (Bool-cases (u.id == id)) [
  | inl hit ↦ let h = rw (hit, hit) at e in cc
  | inr miss ↦ set-inactive id now ts t (rw (miss, miss) at e)
]

Set-Suspended :
    (id : ℕ) (s : Db) (rows : List TenantRow) (s' : Db)
    → Set id (active false) s rows s'
    → Suspended id s'
unfolding has_id
Set-Suspended id s rows s' (now, e) t h =
    set-inactive id now s.tenants.rows t
      (ap (λ (T : Table TenantRow). head? (filter (has_id id) T.rows)) (sym e) ∙ h)

same-Suspended : (id : ℕ) (s s' : Db) → SameTenants s s' → Suspended id s → Suspended id s'
same-Suspended id s s' e h t found =
    h t (ap (λ (T : Table TenantRow). head? (filter (λ u. u.id == id) T.rows)) (sym e) ∙ found)

deactivate-Ends :
    (id : ℕ) (s : Db) → Ends (λ n s'. Suspended id s') (λ s'. Unit {0}) (Repository.deactivate id s)
unfolding Repository.deactivate
deactivate-Ends id s =
    Ends-bind (λ (rows : List TenantRow) s'. Suspended id s') _ _
      (Repository.update id (active false)) _ s
      (Ends-map _ _ (SameTenants s) (λ s'. Unit {0}) (Repository.update id (active false) s)
        (update-Set id (active false) s) (Set-Suspended id s) (λ s' e. tt))
      (λ rows s' h. h)

read_again-Ends :
    (id : ℕ) (s : Db)
    → Suspended id s
    → Ends (λ t s'. Suspended id s') (λ s'. Unit {0}) (read_again id s)
read_again-Ends id s h =
    Ends-bind (λ (t : Option TenantRow) s'. Suspended id s') _ _ (Repository.find_by_id id) _ s
      (Ends-map _ _ (SameTenants s) (λ s'. Unit {0}) (Repository.find_by_id id s) (find-Ends id s)
        (λ t s' (e, found). same-Suspended id s s' e h) (λ s' e. tt))
      (λ t s' h'. Ends-same _ _ (tenant_response t) s' (λ a. h') tt)

found-Ends :
    (t : Option TenantRow) (s : Db)
    → Ends (λ u s'. (t ≡ some u) × (s' ≡ s)) (λ s'. Unit {0}) (found t s)
unfolding found
found-Ends none s = tt
found-Ends (some t) s = (refl, refl)

already :
    (id : ℕ) (s : Db) (t : TenantRow) (s2 : Db)
    → SameTenants s s2
    → head? (filter (has_id id) s.tenants.rows) ≡ some t
    → t.is_active ≡ false
    → Suspended id s2
unfolding has_id
already id s t s2 e f off =
    same-Suspended id s s2 e
      (λ u g. let same : t ≡ u = cc in sym (ap (λ (v : TenantRow). v.is_active) same) ∙ off)

-- Where `deactivateTenant` returns, the tenant of the id is no longer active, whether it was before
-- or not.
pub deactivate_tenant-Ends :
    (id : ℕ) (s : Db) → Ends (λ t s'. Suspended id s') (λ s'. Unit {0}) (deactivate_tenant id s)
unfolding deactivate_tenant tenant_response
deactivate_tenant-Ends id s =
    Ends-bind
      (λ (o : Option TenantRow) s1.
        (s1.tenants ≡ s.tenants) × (o ≡ head? (filter (has_id id) s.tenants.rows)))
      _ _ (Repository.find_by_id id) _ s
      (Ends-map {A = Option TenantRow} _ _ (SameTenants s) (λ s'. Unit {0})
        (Repository.find_by_id id s) (find-Ends id s) (λ o s1 h. h) (λ s1 e. tt))
      λ o s1 (e, f).
        Ends-bind (λ u s2. (o ≡ some u) × (s2 ≡ s1)) _ _ (found o) _ s1 (found-Ends o s1)
          λ t s2 (h, same). elim (Bool-cases t.is_active) [
            | inl on ↦ rw on (
                Ends-bind (λ (n : ℕ) s3. Suspended id s3) _ _ (Repository.deactivate id) _ s2
                  (deactivate-Ends id s2) (λ n s3 k. read_again-Ends id s3 k))
            | inr off ↦
                rw off (already id s t s2 (ap (λ (d : Db). d.tenants) same ∙ e) (sym f ∙ h) off)
          ]

-- A step of the middleware that does not let the request through.
abbrev pub Denied : Step Scope → Type 0
Denied (next scope) = ⊥
Denied (deny status text) = Unit

Admitted-Suspended :
    (user : AuthUser) (s : Db) (id : ℕ) (scope : Scope)
    → user.tenant_id ≡ some id
    → Suspended id s
    → Admitted user s scope
    → ⊥
Admitted-Suspended user s id scope e h a =
    let same : a.id ≡ id = cc in
    let off : a.tenant.is_active ≡ false =
      h a.tenant (ap (λ n. tenant_with n s) (sym same) ∙ a.found) in
    ground (arith, a.active)

Lets-Denied :
    (user : AuthUser) (s : Db) (id : ℕ) (r : Result (Step Scope))
    → user.tenant_id ≡ some id
    → Suspended id s
    → OkHolds (Lets user s) r
    → OkHolds Denied r
Lets-Denied user s id (ok (next scope)) e h a = Admitted-Suspended user s id scope e h a
Lets-Denied user s id (ok (deny status text)) e h a = tt
Lets-Denied user s id (err x) e h a = tt

-- Once `deactivateTenant` has returned, and as long as the registry stays as it left it, the resolver
-- lets no user of that tenant through who is not a Super Admin, whatever schema the token names.
pub deactivate_tenant-locks_out :
    (id : ℕ) (s : Db) (t : TenantRow) (s1 s2 : Db) (user : AuthUser)
    → deactivate_tenant id s ≡ (ok t, s1)
    → s2.tenants ≡ s1.tenants
    → is_super user.role ≡ false
    → user.tenant_id ≡ some id
    → OkHolds Denied (tenant_resolver user s2).0
deactivate_tenant-locks_out id s t s1 s2 user done same ordinary has =
    let off : Suspended id s1 =
      subst (Ends (λ u s'. Suspended id s') (λ s'. Unit {0})) done (deactivate_tenant-Ends id s) in
    Lets-Denied user s2 id (tenant_resolver user s2).0 has (same-Suspended id s1 s2 same off)
      (tenant_resolver-Admitted user s2 ordinary)
