-- ===== src/Users/Tests.antt =====
-- The theorems on the users at concrete inputs: an active tenant with an Admin and a sales agent.
use real_estate_multi_tenant.Prelude.{
  ◌≡◌, filter, ℕ, ◌≢◌, refl, String, Bool, true, false, List, [], ◌∷◌, none, some, inl, inr, str_eq,
  arith, eq_iff, Bool-cases, if◌then◌else◌,
}
use real_estate_multi_tenant.Db.{ok, err, UserRow, TenantRow, Table, Db}
use real_estate_multi_tenant.Db.Returns.{OkHolds}
use real_estate_multi_tenant.Access.Roles.{admin, sales}
use real_estate_multi_tenant.Access.Request.{
  Payload, Verified, valid, json_web_token_error, Request, AuthUser, next,
}
use real_estate_multi_tenant.Access.Auth.{authenticate_token, token_of}
use real_estate_multi_tenant.Access.Guard.{Refused}
use real_estate_multi_tenant.Access.Isolation.{request_schema}
use real_estate_multi_tenant.Access.Scoped.{Untouched}
use real_estate_multi_tenant.Users.Dto.{
  LoginDto, LoginResult, response_of, CreateUserDto, UpdateUserDto,
}
use real_estate_multi_tenant.Users.Service.{tenant_user_login, create_user, update_user}
use real_estate_multi_tenant.Users.Repository.{Found, has_id}
use real_estate_multi_tenant.Users.Taken.{update_user-conflict}
use real_estate_multi_tenant.Errors.{conflict}
use real_estate_multi_tenant.Db.Healthy.{tick}
use real_estate_multi_tenant.Users.Session.{TenantsValid, login-lets}
use real_estate_multi_tenant.Access.TenantResolver.{tenant_resolver}
use real_estate_multi_tenant.Users.Routes.{
  UserCall, create_call, delete_call, user_route, users_handle,
}
use real_estate_multi_tenant.Users.Isolation.{users_handle-Untouched}
use real_estate_multi_tenant.Users.Emails.{Distinct, EmailsDiffer}
use real_estate_multi_tenant.Users.Guard.{user_route-Refused}
use real_estate_multi_tenant.Users.Credentials.{locate, login_of, tenant_user_login-eq}
use real_estate_multi_tenant.Users.Login.{claims_of, LoggedIn, tenant_user_login-LoggedIn}

abbrev user_of : ℕ → String → String → UserRow
user_of id email role = record {
  id = id;
  tenant_id = some 1;
  name = "A user";
  email = email;
  password_hash = "secret-hash";
  role = role;
  is_active = true;
  created_at = 1;
  updated_at = 1;
}

abbrev two_users : Table UserRow
two_users = record {
  rows = user_of 1 "ada@lake.example" admin ∷ user_of 2 "sam@lake.example" sales ∷ [];
  next = 3;
}

abbrev tenant : TenantRow
tenant = record {
  id = 1;
  name = "Lake Homes";
  contact = "office@lake.example";
  subscription_type = "Basic";
  schema_name = "tenant_1";
  is_active = true;
  created_at = 1;
  updated_at = 1;
}

abbrev start : Db
start = record {
  schemas = "public" ∷ "tenant_1" ∷ [];
  tenants = record { rows = tenant ∷ []; next = 2 };
  users = λ name. if str_eq "tenant_1" name then some two_users else none;
  projects = λ name. none;
  units = λ name. none;
  audit_logs = λ name. none;
  indexes = λ name. [];
  search_path = "public";
  statements = 0;
  fails = λ n. false;
  reason = λ n. "";
  time = λ n. n;
}

two_users-Distinct : Distinct two_users.rows
two_users-Distinct =
    (((λ e. ground (arith, eq_iff "sam@lake.example" "ada@lake.example")), tt), (tt, tt))

start-EmailsDiffer : EmailsDiffer start
start-EmailsDiffer = record {
  at = λ name. elim (Bool-cases (str_eq "tenant_1" name)) [
    | inl e ↦ rw e two_users-Distinct
    | inr e ↦ rw e tt
  ];
}

abbrev hash : ℕ → String → String
hash salt password = "secret-hash"

abbrev compare : String → String → Bool
compare password password_hash = str_eq password "secret"

abbrev sign : Payload → String
sign payload = "t"

abbrev payload : Payload
payload = record {
  id = 1;
  email = "ada@lake.example";
  role = some admin;
  tenant_id = some 1;
  tenant_schema = some "tenant_1";
}

abbrev verify : String → Verified
verify token = if str_eq token "t" then valid payload else json_web_token_error

abbrev good : Request
good = record {
  authorization = some "Bearer t";
  ip = some "10.0.0.1";
  forwarded_for = none;
  remote_address = none;
  user_agent = none;
}

abbrev same_order : List UserRow → List UserRow
same_order rows = rows

abbrev hire : UserCall
hire =
    create_call (record {
      name = "Vic";
      email = "vic@lake.example";
      password = "longenough";
      role = "Viewer";
    })

other_schema : request_schema verify good ≢ some "tenant_2"
unfolding authenticate_token token_of
other_schema e = ground (arith, eq_iff "tenant_1" "tenant_2")

users_handle-Untouched_example :
    Untouched "tenant_2" start (users_handle hash same_order good true verify hire start).1
users_handle-Untouched_example =
    users_handle-Untouched hash same_order good true verify hire "tenant_2" start other_schema

abbrev sam : AuthUser
sam = record {
  id = 2;
  email = "sam@lake.example";
  role = some sales;
  tenant_id = some 1;
  tenant_schema = some "tenant_1";
}

user_route-Refused_example :
    Refused
      (user_route hash same_order good true
        (delete_call 1)
        sam
        (record { tenant_schema = "tenant_1"; tenant_id = some 1 }))
      start
user_route-Refused_example =
    user_route-Refused hash same_order good true (delete_call 1) sam
      (record { tenant_schema = "tenant_1"; tenant_id = some 1 }) sales start refl
      (λ e. ground (arith, eq_iff sales admin))

abbrev credentials : LoginDto
credentials = record { email = "sam@lake.example"; password = "secret" }

tenant_user_login-LoggedIn_example :
    OkHolds
      (LoggedIn compare sign start credentials)
      (tenant_user_login compare sign credentials start).0
tenant_user_login-LoggedIn_example = tenant_user_login-LoggedIn compare sign credentials start

tenant_user_login-eq_example :
    (tenant_user_login compare sign credentials start).0
    ≡ login_of compare sign credentials
        (locate start.users credentials.email (filter (λ t. t.is_active) start.tenants.rows))
tenant_user_login-eq_example = tenant_user_login-eq compare sign credentials start (λ n. refl)

abbrev sam_found : Found
sam_found = record { user = user_of 2 "sam@lake.example" sales; schema = "tenant_1"; tenant_id = 1 }

abbrev verify_sam : String → Verified
verify_sam token = if str_eq token "t" then valid (claims_of sam_found) else json_web_token_error

abbrev sam_result : LoginResult
sam_result = record {
  user = response_of sam_found.user;
  token = "t";
  tenant_schema = some "tenant_1";
}

abbrev sam_login : LoggedIn compare sign start credentials sam_result
sam_login = record {
  who = sam_found;
  located = record {
    tenant = tenant;
    table = two_users;
    registered = inl refl;
    open_tenant = refl;
    same_tenant = refl;
    same_schema = refl;
    has_table = refl;
    member = inr (inl refl);
    address = refl;
  };
  password = refl;
  active = refl;
  token = refl;
}

tenants-TenantsValid : TenantsValid start.tenants.rows
tenants-TenantsValid = (tt, (λ e. omega arith), (λ e. ground (arith, eq_iff "tenant_1" "")), tt)

good_token : token_of good.authorization ≡ some "t"
unfolding token_of
good_token = refl

login-lets_example :
    (authenticate_token verify_sam good ≡ next sam)
    × ((tenant_resolver sam start).0
        ≡ ok (next (record { tenant_schema = "tenant_1"; tenant_id = some 1 })))
login-lets_example =
    login-lets compare sign verify_sam credentials sam_result start sam_login good start refl
      good_token (λ e. ground (arith, eq_iff sales "Super Admin")) tenants-TenantsValid (λ n. refl)
      refl

abbrev ada_again : CreateUserDto
ada_again = record {
  name = "Ada";
  email = "ada@lake.example";
  password = "longenough";
  role = "Viewer";
  tenant_id = some 1;
}

abbrev to_ada : UpdateUserDto
to_ada = record {
  name = none;
  email = some "ada@lake.example";
  password = none;
  role = none;
  is_active = none;
}

update_user-conflict_example :
    (create_user hash ada_again "tenant_1" start
      ≡ (err (conflict "Email already exists"), tick start))
    × (update_user hash 2 to_ada "tenant_1" start
        ≡ (err (conflict "Email already exists"), tick (tick start)))
unfolding filter has_id
update_user-conflict_example =
    update_user-conflict hash "tenant_1" start two_users (λ n. refl) refl
      (user_of 1 "ada@lake.example" admin) (inl refl) ada_again 2 to_ada
      (user_of 2 "sam@lake.example" sales) refl refl refl
      (λ e. ground (arith, eq_iff "ada@lake.example" "")) (λ e. omega (arith, e))
      (λ e. ground (arith, eq_iff "sam@lake.example" "ada@lake.example"))
