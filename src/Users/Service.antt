-- ===== src/Users/Service.antt =====
-- src/modules/users/user.service.js: `sign` is `jwt.sign` with the secret and the expiry of a day.
use real_estate_multi_tenant.Prelude.{
  ℕ, ℤ, pos, String, Bool, false, List, map, Option, none, some, str_eq, if◌then◌else◌,
}
use real_estate_multi_tenant.Errors.{not_found, unauthorized, conflict, forbidden}
use real_estate_multi_tenant.Db.{UserRow, M, pure, raise, lift, ◌>>=◌}
use real_estate_multi_tenant.Paging.{or_default, offset_of}
use real_estate_multi_tenant.Access.Roles.{super_admin}
use real_estate_multi_tenant.Access.Request.{Payload, AuthUser}
use real_estate_multi_tenant.Access.Auth.{truthy, truthy_id}
use real_estate_multi_tenant.Access.TenantResolver.{is_super}
use real_estate_multi_tenant.Users.Dto.{
  LoginDto, CreateUserDto, UpdateUserDto, has_updates, UserResponse, response_of, user_response,
  LoginResult,
}
use real_estate_multi_tenant.Users.Repository
use real_estate_multi_tenant.Users.Repository.{Found}

-- The payload of a tenant user's token.
abbrev pub tenant_payload : Found → Payload
tenant_payload f = record {
  id = f.user.id;
  email = f.user.email;
  role = some f.user.role;
  tenant_id = some f.tenant_id;
  tenant_schema = some f.schema;
}

abbrev pub super_payload : UserRow → Payload
super_payload u = record {
  id = u.id;
  email = u.email;
  role = some u.role;
  tenant_id = none;
  tenant_schema = none;
}

-- A schema that is null is the name "null" in the query.
abbrev pub schema_name : AuthUser → String
schema_name user =
    if is_super user.role
    then "public"
    else elim user.tenant_schema [ none ↦ "null" | some name ↦ name ]

abbrev with_tenant : UserRow → String → Option ℕ → Payload
with_tenant u schema none = super_payload u
with_tenant u schema (some id) = record {
  id = u.id;
  email = u.email;
  role = some u.role;
  tenant_id = some id;
  tenant_schema = some schema;
}

module _ (compare : String → String → Bool) (sign : Payload → String) where
  abbrev pub check_super : LoginDto → Option UserRow → M LoginResult
  check_super dto none = raise (unauthorized "Invalid credentials")
  check_super dto (some u) =
      if str_eq u.role super_admin
      then if compare dto.password u.password_hash
        then if u.is_active
          then pure (record {
            user = response_of u;
            token = sign (super_payload u);
            tenant_schema = none;
          })
          else raise (forbidden "Account is deactivated")
        else raise (unauthorized "Invalid credentials")
      else raise (unauthorized "Invalid credentials")

  unfoldable pub super_admin_login : LoginDto → M LoginResult
  super_admin_login dto = do
    user ← Repository.find_by_email dto.email "public"
    check_super dto user

  abbrev pub check_found : LoginDto → Option Found → M LoginResult
  check_found dto none = raise (unauthorized "Invalid credentials")
  check_found dto (some f) =
      if compare dto.password f.user.password_hash
      then if f.user.is_active
        then pure (record {
          user = response_of f.user;
          token = sign (tenant_payload f);
          tenant_schema = truthy (some f.schema);
        })
        else raise (forbidden "Account is deactivated")
      else raise (unauthorized "Invalid credentials")

  unfoldable pub tenant_user_login : LoginDto → M LoginResult
  tenant_user_login dto = do
    result ← Repository.find_by_email_across_tenants dto.email
    check_found dto result

module _ (sign : Payload → String) where
  abbrev pub renew : String → Option UserRow → M String
  renew schema none = raise (unauthorized "User not found or inactive")
  renew schema (some u) =
      if u.is_active
      then pure (sign (with_tenant u schema (truthy_id u.tenant_id)))
      else raise (unauthorized "User not found or inactive")

  unfoldable pub refresh_token : AuthUser → M String
  refresh_token user = do
    current ← Repository.find_by_id user.id (schema_name user)
    renew (schema_name user) current

pub record UserPage : Type 0 where
  pub users : List UserResponse
  pub total : ℕ
  pub page : ℤ
  pub limit : ℤ

unfoldable pub get_all_users :
    (List UserRow → List UserRow) → String → Bool → Option ℤ → Option ℤ → M UserPage
get_all_users order schema active_only page_option limit_option = do
  let page = or_default page_option (pos 1)
  let limit = or_default limit_option (pos 10)
  rows ← Repository.find_all order schema active_only limit (offset_of page limit)
  total ← Repository.count schema active_only
  pure (record { users = map response_of rows; total = total; page = page; limit = limit })

-- `if (!user) throw new NotFoundError(…)`
unfoldable pub found : Option UserRow → M UserRow
found none = raise (not_found "User not found")
found (some user) = pure user

unfoldable pub get_user_by_id : ℕ → String → M UserResponse
unfolding found
get_user_by_id id schema = do
  user ← Repository.find_by_id id schema
  u ← found user
  lift (user_response (some u))

unfoldable pub delete_user : ℕ → String → M (Unit {0})
unfolding found
delete_user id schema = do
  user ← Repository.find_by_id id schema
  u ← found user
  done ← Repository.soft_delete id schema
  pure tt

-- `if (dto.email && dto.email !== existingUser.email)`
abbrev pub new_email : Option String → UserRow → Option String
new_email none u = none
new_email (some email) u = if str_eq email u.email then none else truthy (some email)

abbrev pub taken : ℕ → String → Option String → M Bool
taken id schema none = pure false
taken id schema (some email) = Repository.email_exists email schema (some id)

module _ (hash : ℕ → String → String) where
  unfoldable pub create_user : CreateUserDto → String → M UserResponse
  create_user dto schema = do
    exists ← Repository.email_exists dto.email schema none
    let save = do user ← Repository.create hash dto schema; lift (user_response (some user))
    if exists then raise (conflict "Email already exists") else save

  unfoldable pub update_user : ℕ → UpdateUserDto → String → M UserResponse
  unfolding found
  update_user id dto schema = do
    user ← Repository.find_by_id id schema
    existing ← found user
    exists ← taken id schema (new_email dto.email existing)
    let save = do updated ← Repository.update hash id dto schema; lift (user_response updated)
    if exists
        then raise (conflict "Email already exists")
        else if has_updates dto
        then save
        else lift (user_response (some existing))
