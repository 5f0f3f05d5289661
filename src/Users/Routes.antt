-- ===== src/Users/Routes.antt =====
-- src/modules/users/user.routes.js: the routes under /users, and those of logins and tokens.
-- `passes` is the answer of the validation schema of the route.
use real_estate_multi_tenant.Prelude.{ℕ, ℤ, String, Bool, List, Option}
use real_estate_multi_tenant.Db.{UserRow}
use real_estate_multi_tenant.Access.Roles.{Action}
use real_estate_multi_tenant.Access.Roles
use real_estate_multi_tenant.Access.Request.{Payload, Verified, Request, AuthUser, Scope}
use real_estate_multi_tenant.Access.Auth.{authenticate_token}
use real_estate_multi_tenant.Access.Pipeline.{
  Handler, after, validate, scoped, admin_route, member_route, audited, plain, with_body,
}
use real_estate_multi_tenant.Users.Dto.{
  LoginDto, CreateUserBody, UpdateUserDto, UserResponse, LoginResult,
}
use real_estate_multi_tenant.Users.Service.{UserPage}
use real_estate_multi_tenant.Users.Controller

pub data UserCall : Type 0 where
  create_call : CreateUserBody → UserCall
  list_call : Bool → Option ℤ → Option ℤ → UserCall
  get_call : ℕ → UserCall
  update_call : ℕ → UpdateUserDto → UserCall
  delete_call : ℕ → UserCall

-- The data of a reply: a user, or a page of the listing.
pub data UserBody : Type 0 where
  one : UserResponse → UserBody
  many : UserPage → UserBody

module _ (hash : ℕ → String → String) (order : List UserRow → List UserRow) (req : Request)
    (passes : Bool) where
  -- The listing has no validation, which stands here as one that passes.
  unfoldable pub user_route : UserCall → AuthUser → Scope → Handler UserBody
  user_route (create_call body) user scope = admin_route passes Roles.users Roles.create user (
      with_body one (
        audited "user" "CREATE" req user scope
          (Controller.create_user hash body scope.tenant_id scope.tenant_schema)))
  user_route (list_call active_only page limit) user scope =
      member_route Bool.true Roles.users Roles.read user (
        with_body many
          (plain (Controller.get_all_users order scope.tenant_schema active_only page limit)))
  user_route (get_call id) user scope =
      member_route passes Roles.users Roles.read user
        (with_body one (plain (Controller.get_user_by_id id scope.tenant_schema)))
  user_route (update_call id dto) user scope = admin_route passes Roles.users Roles.update user (
      with_body one (
        audited "user" "UPDATE" req user scope
          (Controller.update_user hash id dto scope.tenant_schema)))
  user_route (delete_call id) user scope = admin_route passes Roles.users Roles.delete user (
      with_body one
        (audited "user" "DELETE" req user scope (Controller.delete_user id scope.tenant_schema)))

  -- Every route under /users stands behind authentication and the tenant resolver.
  unfoldable pub users_handle : (String → Verified) → UserCall → Handler UserBody
  users_handle verify call = scoped verify req (user_route call)

module _ (compare : String → String → Bool) (sign : Payload → String) (passes : Bool) where
  unfoldable pub super_admin_login : LoginDto → Handler LoginResult
  super_admin_login dto =
      after (validate passes) λ _. plain (Controller.super_admin_login compare sign dto)

  unfoldable pub tenant_user_login : LoginDto → Handler LoginResult
  tenant_user_login dto =
      after (validate passes) λ _. plain (Controller.tenant_user_login compare sign dto)

module _ (sign : Payload → String) where
  unfoldable pub refresh_token : (String → Verified) → Request → Handler String
  refresh_token verify req =
      after (authenticate_token verify req) λ user. plain (Controller.refresh_token sign user)
