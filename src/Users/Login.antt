-- ===== src/Users/Login.antt =====
-- Who may log in to a tenant.
use mathlib.Core.Path.{subst}
use real_estate_multi_tenant.Prelude.{
  String, ◌≡◌, refl, sym, ap, ◌∙◌, Bool, true, List, [], ◌∷◌, Option, none, some, head?, filter,
  ◌⊎◌, inl, inr, Bool-cases, Option-cases, eq_iff, arith,
}
use real_estate_multi_tenant.Db.{UserRow, TenantRow, Table, Db, M, pure, ◌>>=◌, select_where}
use real_estate_multi_tenant.Db.Respects.{Preorder, Respects, respects_rules}
use real_estate_multi_tenant.Db.Returns.{
  OkHolds, Returns, Returns-pure, Returns-raise, Returns-if, bind-OkHolds, attempt-OkHolds,
  chain-OkHolds,
}
use real_estate_multi_tenant.Access.ActiveTenant.{select_tenants-OkHolds}
use real_estate_multi_tenant.Access.Isolation.{select_tenants-Respects}
use real_estate_multi_tenant.Access.TenantResolver.{select_tenants}
use real_estate_multi_tenant.Access.Request.{Payload}
use real_estate_multi_tenant.Users.Dto.{LoginDto, LoginResult}
use real_estate_multi_tenant.Users.Repository
use real_estate_multi_tenant.Users.Repository.{
  has_email, find_by_email, Found, found_in, search_tenants,
}
use real_estate_multi_tenant.Users.Service.{tenant_user_login, check_found}

module _ {A : Type 0} where
  abbrev pub In : A → List A → Type 0
  In x [] = ⊥
  In x (y ∷ ys) = (y ≡ x) ⊎ In x ys

  In-filter : (p : A → Bool) (x : A) (ys : List A) → In x (filter p ys) → In x ys × (p x ≡ true)
  unfolding filter
  In-filter p x [] h = absurd h
  In-filter p x (y ∷ ys) h = elim (Bool-cases (p y)) [
    | inl e ↦ elim (rw e at h) [
      | inl same ↦ (inl same, ap p (sym same) ∙ e)
      | inr later ↦ let (m, t) = In-filter p x ys later in (inr m, t)
    ]
    | inr e ↦ let (m, t) = In-filter p x ys (rw e at h) in (inr m, t)
  ]

  In-head : (x : A) (ys : List A) → head? ys ≡ some x → In x ys
  In-head x [] e = cc
  In-head x (y ∷ ys) e = inl (ground arith)

-- A user of an active tenant with this email, and where the user stands.
pub record Located (s : Db) (email : String) (f : Found) : Type 0 where
  pub tenant : TenantRow
  pub table : Table UserRow
  pub registered : In tenant s.tenants.rows
  pub open_tenant : tenant.is_active ≡ true
  pub same_tenant : f.tenant_id ≡ tenant.id
  pub same_schema : f.schema ≡ tenant.schema_name
  pub has_table : s.users tenant.schema_name ≡ some table
  pub member : In f.user table.rows
  pub address : f.user.email ≡ email

-- The users are as they were.
record SameUsers (s s' : Db) : Type 0 where
  users : s'.users ≡ s.users

SameUsers-preorder : Preorder SameUsers
SameUsers-preorder = record {
  refl = λ s. record { users = refl };
  trans = λ s t u h k. record { users = k.users ∙ h.users };
  count = λ s n. record { users = refl };
  path = λ s p. record { users = refl };
}

record Registered (s : Db) (email schema : String) (u : UserRow) : Type 0 where
  table : Table UserRow
  has_table : s.users schema ≡ some table
  member : In u table.rows
  address : u.email ≡ email

abbrev WhenSome : {A : Type 0} → (A → Type 0) → Option A → Type 0
WhenSome P none = Unit
WhenSome P (some a) = P a

head-Registered :
    (s : Db) (email schema : String) (t : Table UserRow)
    → s.users schema ≡ some t
    → (o : Option UserRow) → head? (filter (has_email email) t.rows) ≡ o
    → WhenSome (Registered s email schema) o
unfolding has_email
head-Registered s email schema t has none e = tt
head-Registered s email schema t has (some u) e =
    let (m, known) = In-filter (has_email email) u t.rows (In-head u _ e) in
    record { table = t; has_table = has; member = m; address = (eq_iff u.email email).0 known }

find_by_email-Registered :
    (email schema : String) (s : Db)
    → OkHolds (WhenSome (Registered s email schema)) (find_by_email email schema s).0
unfolding find_by_email select_where
find_by_email-Registered email schema s = elim (Bool-cases (s.fails s.statements)) [
  | inl down ↦ rw down tt
  | inr up ↦ elim (Option-cases (s.users schema)) [
    | inl missing ↦ rw (up, missing) tt
    | inr (t, has) ↦ rw (up, has) (head-Registered s email schema t has _ refl)
  ]
]

find_by_email-SameUsers : (email schema : String) → Respects SameUsers (find_by_email email schema)
unfolding find_by_email
find_by_email-SameUsers email schema = search (SameUsers-preorder, respects_rules)

module _ (s : Db) (email : String) where
  Registered-Located :
      (t : TenantRow) (s' : Db) (u : UserRow)
      → SameUsers s s'
      → In t s.tenants.rows
      → t.is_active ≡ true
      → Registered s' email t.schema_name u
      → Located s email (record { user = u; schema = t.schema_name; tenant_id = t.id })
  Registered-Located t s' u same m a r = record {
    tenant = t;
    table = r.table;
    registered = m;
    open_tenant = a;
    same_tenant = refl;
    same_schema = refl;
    has_table = ap (λ f. f t.schema_name) (sym same.users) ∙ r.has_table;
    member = r.member;
    address = r.address;
  }

  abbrev Allowed : List TenantRow → Type 0
  Allowed ts = (t : TenantRow) → In t ts → In t s.tenants.rows × (t.is_active ≡ true)

  found_in-Located :
      (t : TenantRow) (s' s'' : Db) (o : Option UserRow) (rest : M (Option Found))
      → SameUsers s s'
      → In t s.tenants.rows × (t.is_active ≡ true)
      → WhenSome (Registered s' email t.schema_name) o
      → OkHolds (WhenSome (Located s email)) (rest s'').0
      → OkHolds (WhenSome (Located s email)) (found_in t o rest s'').0
  found_in-Located t s' s'' none rest same m w h = h
  found_in-Located t s' s'' (some u) rest same (m, a) w h = Registered-Located t s' u same m a w

  search_tenants-Located :
      (ts : List TenantRow) (s' : Db)
      → Allowed ts
      → SameUsers s s'
      → OkHolds (WhenSome (Located s email)) (search_tenants email ts s').0
  unfolding search_tenants
  search_tenants-Located [] s' ok_ts same = tt
  search_tenants-Located (t ∷ rest) s' ok_ts same =
      let s'' = (find_by_email email t.schema_name s').1 in
      let same' : SameUsers s s'' =
        SameUsers-preorder.trans s s' s'' same
          ((find_by_email-SameUsers email t.schema_name).at s') in
      chain-OkHolds (WhenSome (Located s email)) (WhenSome (Registered s' email t.schema_name))
        (find_by_email email t.schema_name) (λ user. found_in t user (search_tenants email rest)) s'
        (find_by_email-Registered email t.schema_name s')
        (λ o w.
          found_in-Located t s' s'' o (search_tenants email rest) same (ok_ts t (inl refl)) w
            (search_tenants-Located rest s'' (λ u m. ok_ts u (inr m)) same'))

  across-Located :
      OkHolds (WhenSome (Located s email)) (Repository.find_by_email_across_tenants email s).0
  unfolding Repository.find_by_email_across_tenants
  across-Located =
      attempt-OkHolds {P = WhenSome (Located s email)}
        (select_tenants (λ t. t.is_active) >>= search_tenants email) (λ e. pure none) s
        (chain-OkHolds (WhenSome (Located s email))
          (λ rows. rows ≡ filter (λ t. t.is_active) s.tenants.rows)
          (select_tenants (λ t. t.is_active)) (search_tenants email) s
          (select_tenants-OkHolds (λ t. t.is_active) s)
          (λ rows e.
            search_tenants-Located rows (select_tenants (λ t. t.is_active) s).1
              (λ t m. In-filter (λ t. t.is_active) t s.tenants.rows (subst (In t) e m))
              ((select_tenants-Respects SameUsers-preorder (λ t. t.is_active)).at s)))
        (λ e. Returns-pure none tt)

-- What the token of a user who was found in a tenant says.
abbrev pub claims_of : Found → Payload
claims_of f = record {
  id = f.user.id;
  email = f.user.email;
  role = some f.user.role;
  tenant_id = some f.tenant_id;
  tenant_schema = some f.schema;
}

-- What a login to a tenant proves of its token.
pub record LoggedIn (compare : String → String → Bool) (sign : Payload → String) (s : Db)
    (dto : LoginDto) (r : LoginResult) : Type 0 where
  pub who : Found
  pub located : Located s dto.email who
  pub password : compare dto.password who.user.password_hash ≡ true
  pub active : who.user.is_active ≡ true
  pub token : r.token ≡ sign (claims_of who)

module _ (compare : String → String → Bool) (sign : Payload → String) where
  check_found-LoggedIn :
      (s : Db) (dto : LoginDto) (o : Option Found)
      → WhenSome (Located s dto.email) o
      → Returns (LoggedIn compare sign s dto) (check_found compare sign dto o)
  check_found-LoggedIn s dto none w = Returns-raise _
  check_found-LoggedIn s dto (some f) w =
      Returns-if (compare dto.password f.user.password_hash) _ _
        (λ p.
          Returns-if f.user.is_active _ _
            (λ a.
              Returns-pure _
                (record { who = f; located = w; password = p; active = a; token = refl }))
            (λ e. Returns-raise _))
        (λ e. Returns-raise _)

  -- A login to a tenant that succeeds is by the password of an active user with that email, in the
  -- schema of a registered active tenant, and its token is signed for the id, the email and the role of
  -- this user, the id of this tenant and its schema.
  pub tenant_user_login-LoggedIn :
      (dto : LoginDto) (s : Db)
      → OkHolds (LoggedIn compare sign s dto) (tenant_user_login compare sign dto s).0
  unfolding tenant_user_login
  tenant_user_login-LoggedIn dto s =
      bind-OkHolds (WhenSome (Located s dto.email))
        (Repository.find_by_email_across_tenants dto.email) (check_found compare sign dto) s
        (across-Located s dto.email) (check_found-LoggedIn s dto)
