-- ===== src/Users/Credentials.antt =====
-- A login to a tenant where no statement fails, against its description on the tables.
use real_estate_multi_tenant.Prelude.{
  ◌≡◌, refl, String, Bool, List, [], ◌∷◌, Option, none, some, head?, filter, inl, inr, Option-cases,
  Bool-cases, if◌then◌else◌,
}
use real_estate_multi_tenant.Errors.{unauthorized, forbidden}
use real_estate_multi_tenant.Db.{UserRow, TenantRow, Table, Db, Result, ok, err, select_where}
use real_estate_multi_tenant.Db.Healthy.{tick, Healthy}
use real_estate_multi_tenant.Access.ActiveTenant.{select_tenants-eq}
use real_estate_multi_tenant.Access.Request.{Payload}
use real_estate_multi_tenant.Access.Auth.{truthy}
use real_estate_multi_tenant.Users.Dto.{LoginDto, LoginResult, response_of}
use real_estate_multi_tenant.Users.Repository.{
  has_email, find_by_email, Found, search_tenants, find_by_email_across_tenants,
}
use real_estate_multi_tenant.Users.Service.{tenant_user_login, tenant_payload, check_found}

-- The first user with the email in a table, if there is such a table.
abbrev pub user_in : String → Option (Table UserRow) → Option UserRow
user_in email none = none
user_in email (some t) = head? (filter (has_email email) t.rows)

abbrev prefer : TenantRow → Option UserRow → Option Found → Option Found
prefer t none later = later
prefer t (some u) later = some (record { user = u; schema = t.schema_name; tenant_id = t.id })

-- The user with the email in the first of the tenants that has one.
abbrev pub locate : (String → Option (Table UserRow)) → String → List TenantRow → Option Found
locate tables email [] = none
locate tables email (t ∷ rest) =
    prefer t (user_in email (tables t.schema_name)) (locate tables email rest)

abbrev pub login_of :
    (String → String → Bool) → (Payload → String) → LoginDto → Option Found → Result LoginResult
login_of compare sign dto none = err (unauthorized "Invalid credentials")
login_of compare sign dto (some f) =
    if compare dto.password f.user.password_hash
    then if f.user.is_active
      then ok (record {
        user = response_of f.user;
        token = sign (tenant_payload f);
        tenant_schema = truthy (some f.schema);
      })
      else err (forbidden "Account is deactivated")
    else err (unauthorized "Invalid credentials")

find_by_email-eq :
    (email schema : String) (s : Db)
    → Healthy s
    → find_by_email email schema s ≡ (ok (user_in email (s.users schema)), tick s)
unfolding find_by_email select_where
find_by_email-eq email schema s up = elim (Option-cases (s.users schema)) [
  | inl missing ↦ rw (up s.statements, missing)
  | inr (t, has) ↦ rw (up s.statements, has)
]

search_tenants-eq :
    (email : String) (ts : List TenantRow) (s : Db)
    → Healthy s
    → (search_tenants email ts s).0 ≡ ok (locate s.users email ts)
unfolding search_tenants
search_tenants-eq email [] s up = refl
search_tenants-eq email (t ∷ rest) s up =
    elim (Option-cases (user_in email (s.users t.schema_name))) [
      | inl missing ↦ rw (
        find_by_email-eq email t.schema_name s up,
        missing,
        search_tenants-eq email rest (tick s) up,
      )
      | inr (u, has) ↦ rw (find_by_email-eq email t.schema_name s up, has)
    ]

across-eq :
    (email : String) (s : Db)
    → Healthy s
    → (find_by_email_across_tenants email s).0
      ≡ ok (locate s.users email (filter (λ t. t.is_active) s.tenants.rows))
unfolding find_by_email_across_tenants
across-eq email s up = rw (
  select_tenants-eq (λ t. t.is_active) s up,
  search_tenants-eq email (filter (λ t. t.is_active) s.tenants.rows) (tick s) up,
)

module _ (compare : String → String → Bool) (sign : Payload → String) where
  check_found-eq :
      (dto : LoginDto) (o : Option Found) (s : Db)
      → (check_found compare sign dto o s).0 ≡ login_of compare sign dto o
  check_found-eq dto none s = refl
  check_found-eq dto (some f) s = elim (Bool-cases (compare dto.password f.user.password_hash)) [
    | inl right ↦ elim (Bool-cases f.user.is_active) [
      | inl active ↦ rw (right, active)
      | inr inactive ↦ rw (right, inactive)
    ]
    | inr wrong ↦ rw wrong
  ]

  -- Where no statement fails, a login to a tenant answers by the user with that email in the first
  -- active tenant that has one: unauthorized for no such user or a wrong password, forbidden for a
  -- deactivated account, and else the user with a token that is signed for this user, tenant and
  -- schema.
  pub tenant_user_login-eq :
      (dto : LoginDto) (s : Db)
      → Healthy s
      → (tenant_user_login compare sign dto s).0
        ≡ login_of compare sign dto
            (locate s.users dto.email (filter (λ t. t.is_active) s.tenants.rows))
  unfolding tenant_user_login
  tenant_user_login-eq dto s up =
      rw (across-eq dto.email s up)
        (check_found-eq dto (locate s.users dto.email (filter (λ t. t.is_active) s.tenants.rows)) _)
