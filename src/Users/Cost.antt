-- ===== src/Users/Cost.antt =====
-- A login looks at each active tenant at most once.
use real_estate_multi_tenant.Prelude.{
  ℕ, suc, ◌+◌, ◌≤◌, ◌≡◌, refl, String, Bool, List, [], ◌∷◌, Option, none, some, length, filter, inl,
  inr, Bool-cases, Option-cases, arith,
}
use real_estate_multi_tenant.Db.{
  TenantRow, UserRow, Db, M, Result, ok, err, pure, ◌>>=◌, select_where,
}
use real_estate_multi_tenant.Db.Ends.{Ends, Ends-bind, Ends-map, Ends-attempt}
use real_estate_multi_tenant.Access.Request.{Payload}
use real_estate_multi_tenant.Access.TenantResolver.{select_tenants}
use real_estate_multi_tenant.Users.Dto.{LoginDto}
use real_estate_multi_tenant.Users.Repository
use real_estate_multi_tenant.Users.Repository.{Found, found_in, search_tenants}
use real_estate_multi_tenant.Users.Service
use real_estate_multi_tenant.Users.Service.{check_found}

-- At most so many statements are counted, however the action ends.
abbrev Within : ℕ → {A : Type 0} → Result A × Db → Type 0
Within n m = Ends (λ a s. s.statements ≤ n) (λ s. s.statements ≤ n) m

find-Within :
    (email schema : String) (s : Db)
    → Within (suc s.statements) (Repository.find_by_email email schema s)
unfolding Repository.find_by_email select_where
find-Within email schema s = elim (Bool-cases (s.fails s.statements)) [
  | inl down ↦ rw down (omega arith)
  | inr up ↦ elim (Option-cases (s.users schema)) [
    | inl missing ↦ rw (up, missing) (omega arith)
    | inr (t, has) ↦ rw (up, has) (omega arith)
  ]
]

select-Within :
    (p : TenantRow → Bool) (s : Db)
    → Ends
        (λ rows s'. (s'.statements ≡ suc s.statements) × (rows ≡ filter p s.tenants.rows))
        (λ s'. s'.statements ≡ suc s.statements)
        (select_tenants p s)
unfolding select_tenants
select-Within p s = elim (Bool-cases (s.fails s.statements)) [
  | inl down ↦ rw down refl
  | inr up ↦ rw up (refl, refl)
]

found-Within :
    (t : TenantRow) (user : Option UserRow) (rest : M (Option Found)) (n : ℕ) (s : Db)
    → Within n (rest s)
    → s.statements ≤ n
    → Within n (found_in t user rest s)
found-Within t none rest n s h k = h
found-Within t (some u) rest n s h k = k

search-Within :
    (email : String) (ts : List TenantRow) (n : ℕ) (s : Db)
    → s.statements + length ts ≤ n
    → Within n (search_tenants email ts s)
unfolding search_tenants
search-Within email [] n s h = omega (arith, h)
search-Within email (t ∷ ts) n s h =
    Ends-bind (λ user s'. s'.statements ≤ suc s.statements) (λ f s'. s'.statements ≤ n)
      (λ s'. s'.statements ≤ n) (Repository.find_by_email email t.schema_name) _ s
      (Ends-map (λ user s'. s'.statements ≤ suc s.statements) _
        (λ s'. s'.statements ≤ suc s.statements) (λ s'. s'.statements ≤ n)
        (Repository.find_by_email email t.schema_name s) (find-Within email t.schema_name s)
        (λ user s' k. k) (λ s' k. omega (arith, h, k)))
      λ user s' k.
        found-Within t user (search_tenants email ts) n s'
          (search-Within email ts n s' (omega (arith, h, k))) (omega (arith, h, k))

Ends-state :
    {A : Type 0} (C : Db → Type 0) (r : Result A) (s : Db) → Ends (λ a s'. C s') C (r, s) → C s
Ends-state C (ok a) s h = h
Ends-state C (err e) s h = h

across-Within :
    (email : String) (s : Db)
    → Within
        (suc (s.statements + length (filter (λ t. t.is_active) s.tenants.rows)))
        (Repository.find_by_email_across_tenants email s)
unfolding Repository.find_by_email_across_tenants
across-Within email s =
    let n = suc (s.statements + length (filter (λ t. t.is_active) s.tenants.rows)) in
    Ends-attempt (λ f s'. s'.statements ≤ n) (λ s'. s'.statements ≤ n) (λ s'. s'.statements ≤ n)
      (select_tenants (λ t. t.is_active) >>= search_tenants email) (λ e. pure none) s
      (Ends-bind
        (λ (rows : List TenantRow) s'.
          (s'.statements ≡ suc s.statements) × (rows ≡ filter (λ t. t.is_active) s.tenants.rows))
        _ _ (select_tenants (λ t. t.is_active)) (search_tenants email) s
        (Ends-map {A = List TenantRow} _ _ (λ s'. s'.statements ≡ suc s.statements)
          (λ s'. s'.statements ≤ n) (select_tenants (λ t. t.is_active) s)
          (select-Within (λ t. t.is_active) s) (λ rows s' k. k) (λ s' k. omega (arith, k)))
        (λ rows s' (count, same). search-Within email rows n s' (rw same (omega (arith, count)))))
      (λ e s' k. k)

check-Within :
    (compare : String → String → Bool) (sign : Payload → String) (dto : LoginDto) (f : Option Found)
    (n : ℕ) (s : Db)
    → s.statements ≤ n
    → Within n (check_found compare sign dto f s)
check-Within compare sign dto none n s h = h
check-Within compare sign dto (some f) n s h =
    elim (Bool-cases (compare dto.password f.user.password_hash)) [
      | inl right ↦ elim (Bool-cases f.user.is_active) [
        | inl on ↦ rw (right, on) h
        | inr off ↦ rw (right, off) h
      ]
      | inr wrong ↦ rw wrong h
    ]

-- A login of a tenant user terminates: it runs at most one statement for the registry and one for
-- each active tenant, whatever it returns or throws.
pub tenant_user_login-statements :
    (compare : String → String → Bool) (sign : Payload → String) (dto : LoginDto) (s : Db)
    → (Service.tenant_user_login compare sign dto s).1.statements
      ≤ suc (s.statements + length (filter (λ t. t.is_active) s.tenants.rows))
unfolding Service.tenant_user_login
tenant_user_login-statements compare sign dto s =
    let n = suc (s.statements + length (filter (λ t. t.is_active) s.tenants.rows)) in
    let m = Service.tenant_user_login compare sign dto s in
    Ends-state (λ s'. s'.statements ≤ n) m.0 m.1
      (Ends-bind (λ (f : Option Found) s'. s'.statements ≤ n) (λ r s'. s'.statements ≤ n)
        (λ s'. s'.statements ≤ n) (Repository.find_by_email_across_tenants dto.email)
        (check_found compare sign dto) s (across-Within dto.email s)
        (λ f s' k. check-Within compare sign dto f n s' k))
