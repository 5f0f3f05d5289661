-- ===== src/Users/Session.antt =====
-- The token of a login in later requests.
use real_estate_multi_tenant.Prelude.{
  ℕ, zero, suc, ◌≡◌, ◌≢◌, refl, sym, ap, ◌∙◌, String, Bool, true, false, List, [], ◌∷◌, some, head?,
  filter, ◌==◌, inl, inr, All, Bool-cases, str_eq, eq_iff, arith,
}
use real_estate_multi_tenant.Db.{TenantRow, Table, Db, ok}
use real_estate_multi_tenant.Db.Healthy.{Healthy}
use real_estate_multi_tenant.Access.Request.{Request, AuthUser, Payload, Verified, valid, next}
use real_estate_multi_tenant.Access.Auth.{authenticate_token, token_of, truthy, truthy_id}
use real_estate_multi_tenant.Access.TenantResolver.{tenant_resolver, is_super}
use real_estate_multi_tenant.Access.ActiveTenant.{tenant_resolver-lets}
use real_estate_multi_tenant.Access.Roles.{super_admin}
use real_estate_multi_tenant.Users.Dto.{LoginDto, LoginResult}
use real_estate_multi_tenant.Users.Login.{In, claims_of, LoggedIn}

-- Ids are distinct and not 0, and no schema name is empty.
abbrev pub TenantsValid : List TenantRow → Type 0
TenantsValid [] = Unit
TenantsValid (t ∷ ts) =
    All (λ u. u.id ≢ t.id) ts × (t.id ≢ 0) × (t.schema_name ≢ "") × TenantsValid ts

In-ne : (t u : TenantRow) (ts : List TenantRow) → All (λ v. v.id ≢ u.id) ts → In t ts → t.id ≢ u.id
In-ne t u (v ∷ ts) (n, h) (inl same) e = n (ap (λ (r : TenantRow). r.id) same ∙ e)
In-ne t u (v ∷ ts) (n, h) (inr later) e = In-ne t u ts h later e
In-ne t u [] h m e = absurd m

In-first :
    (t : TenantRow) (ts : List TenantRow)
    → TenantsValid ts
    → In t ts
    → head? (filter (λ u. u.id == t.id) ts) ≡ some t
unfolding filter
In-first t [] v m = absurd m
In-first t (u ∷ ts) (n, z, e, v) (inl same) =
    let i : u.id ≡ t.id = ap (λ (r : TenantRow). r.id) same in
    let hit : (u.id == t.id) ≡ true = ground arith in rw hit (ap some same)
In-first t (u ∷ ts) (n, z, e, v) (inr later) =
    let i : t.id ≢ u.id = In-ne t u ts n later in
    let miss : (u.id == t.id) ≡ false = ground arith in rw miss (In-first t ts v later)

In-nonzero : (t : TenantRow) (ts : List TenantRow) → TenantsValid ts → In t ts → t.id ≢ 0
In-nonzero t [] v m h = absurd m
In-nonzero t (u ∷ ts) (n, z, e, v) (inl same) h = z (ap (λ (r : TenantRow). r.id) same ∙ h)
In-nonzero t (u ∷ ts) (n, z, e, v) (inr later) h = In-nonzero t ts v later h

In-named : (t : TenantRow) (ts : List TenantRow) → TenantsValid ts → In t ts → t.schema_name ≢ ""
In-named t [] v m h = absurd m
In-named t (u ∷ ts) (n, z, e, v) (inl same) h = e (ap (λ (r : TenantRow). r.schema_name) same ∙ h)
In-named t (u ∷ ts) (n, z, e, v) (inr later) h = In-named t ts v later h

truthy_id-some : (n : ℕ) → n ≢ 0 → truthy_id (some n) ≡ some n
truthy_id-some zero h = absurd (h refl)
truthy_id-some (suc n) h = refl

truthy-some : (name : String) → name ≢ "" → truthy (some name) ≡ some name
truthy-some name h = elim (Bool-cases (str_eq name "")) [
  | inl e ↦ absurd (h ((eq_iff name "").0 e))
  | inr e ↦ rw e
]

module _ (compare : String → String → Bool) (sign : Payload → String) (verify : String → Verified)
    (dto : LoginDto) (r : LoginResult) (s : Db) (w : LoggedIn compare sign s dto r) where
  who-id : TenantsValid s.tenants.rows → truthy_id (some w.who.tenant_id) ≡ some w.who.tenant_id
  who-id v = truthy_id-some w.who.tenant_id λ e.
      In-nonzero w.located.tenant s.tenants.rows v w.located.registered
        (sym w.located.same_tenant ∙ e)

  who-schema : TenantsValid s.tenants.rows → truthy (some w.who.schema) ≡ some w.who.schema
  who-schema v = truthy-some w.who.schema λ e.
      In-named w.located.tenant s.tenants.rows v w.located.registered
        (sym w.located.same_schema ∙ e)

  ordinary : w.who.user.role ≢ super_admin → is_super (some w.who.user.role) ≡ false
  ordinary n = elim (Bool-cases (str_eq w.who.user.role super_admin)) [
    | inl e ↦ absurd (n ((eq_iff w.who.user.role super_admin).0 e))
    | inr e ↦ e
  ]

  -- The user that a request is authenticated as by the token of the login.
  abbrev pub session_user : AuthUser
  session_user = record {
    id = w.who.user.id;
    email = w.who.user.email;
    role = some w.who.user.role;
    tenant_id = some w.located.tenant.id;
    tenant_schema = some w.located.tenant.schema_name;
  }

  -- Where the token of a login verifies as it was signed, a request that carries it, of a user who
  -- is no Super Admin, is authenticated with the id, the email and the role of that user and the id and
  -- the schema of the tenant in which the user was found, if the tenants are valid; and while the tenants are as they were
  -- at the login and no statement fails, the tenant resolver lets it through to that schema.
  pub login-lets :
      (req : Request) (s' : Db)
      → verify (sign (claims_of w.who)) ≡ valid (claims_of w.who)
      → token_of req.authorization ≡ some r.token
      → w.who.user.role ≢ super_admin
      → TenantsValid s.tenants.rows
      → Healthy s'
      → s'.tenants ≡ s.tenants
      → (authenticate_token verify req ≡ next session_user)
        × ((tenant_resolver session_user s').0
            ≡ ok (
                next (record {
                  tenant_schema = w.located.tenant.schema_name;
                  tenant_id = some w.located.tenant.id;
                })))
  unfolding authenticate_token
  login-lets req s' round has n v up same = (
    rw (has, w.token, round, who-id v, who-schema v, w.located.same_tenant, w.located.same_schema)
        refl,
    tenant_resolver-lets session_user s' w.located.tenant.id w.located.tenant.schema_name
        w.located.tenant up (ordinary n) refl refl
        (ap (λ (t : Table TenantRow). head? (filter (λ u. u.id == w.located.tenant.id) t.rows)) same
          ∙ In-first w.located.tenant s.tenants.rows v w.located.registered)
        w.located.open_tenant,
  )
