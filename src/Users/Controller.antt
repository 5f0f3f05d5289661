-- ===== src/Users/Controller.antt =====
-- src/modules/users/user.controller.js: `schema` is `req.tenantSchema`, `id` is `req.params.id`.
use real_estate_multi_tenant.Prelude.{ℕ, ℤ, String, Bool, List, Option, none, some}
use real_estate_multi_tenant.Errors.{Error, not_found, unauthorized, forbidden, conflict}
use real_estate_multi_tenant.Db.{UserRow, Db, Snapshot, of_user, pure, ◌>>=◌}
use real_estate_multi_tenant.Http.{Reply, Handled, send_success, send_created, send_error, respond}
use real_estate_multi_tenant.Access.Request.{Payload, AuthUser}
use real_estate_multi_tenant.Users.Dto.{
  LoginDto, CreateUserBody, UpdateUserDto, create_user_dto, UserResponse, LoginResult,
}
use real_estate_multi_tenant.Users.Service
use real_estate_multi_tenant.Users.Service.{UserPage}

abbrev pub snapshot : UserResponse → Snapshot
snapshot u = of_user u.id u.tenant_id u.name u.email u.role u.is_active u.created_at u.updated_at

abbrev pub login_error : {A : Type 0} → Error → Reply A
login_error (unauthorized m) = send_error (unauthorized m) 401
login_error (forbidden m) = send_error (forbidden m) 401
login_error e = send_error e 500

abbrev pub refresh_error : {A : Type 0} → Error → Reply A
refresh_error (unauthorized m) = send_error (unauthorized m) 401
refresh_error e = send_error e 500

abbrev pub user_error : {A : Type 0} → Error → Reply A
user_error (not_found m) = send_error (not_found m) 404
user_error (conflict m) = send_error (conflict m) 409
user_error e = send_error e 500

abbrev pub create_error : {A : Type 0} → Error → Reply A
create_error (conflict m) = send_error (conflict m) 409
create_error e = send_error e 500

abbrev pub not_found_or_500 : {A : Type 0} → Error → Reply A
not_found_or_500 (not_found m) = send_error (not_found m) 404
not_found_or_500 e = send_error e 500

module _ (compare : String → String → Bool) (sign : Payload → String) where
  unfoldable pub super_admin_login : LoginDto → Db → Handled LoginResult × Db
  super_admin_login dto =
      respond
        (do
          result ← Service.super_admin_login compare sign dto
          pure (send_success (some result) "Login successful", none))
        login_error

  unfoldable pub tenant_user_login : LoginDto → Db → Handled LoginResult × Db
  tenant_user_login dto =
      respond
        (do
          result ← Service.tenant_user_login compare sign dto
          pure (send_success (some result) "Login successful", none))
        login_error

module _ (sign : Payload → String) where
  unfoldable pub refresh_token : AuthUser → Db → Handled String × Db
  refresh_token user =
      respond
        (do
          token ← Service.refresh_token sign user
          pure (send_success (some token) "Token refreshed successfully", none))
        refresh_error

unfoldable pub get_all_users :
    (List UserRow → List UserRow) → String → Bool → Option ℤ → Option ℤ → Db → Handled UserPage × Db
get_all_users order schema active_only page limit =
    respond
      (do
        result ← Service.get_all_users order schema active_only page limit
        pure (send_success (some result) "Users retrieved successfully", none))
      (λ e. send_error e 500)

unfoldable pub get_user_by_id : ℕ → String → Db → Handled UserResponse × Db
get_user_by_id id schema =
    respond
      (do
        user ← Service.get_user_by_id id schema
        pure (send_success (some user) "User retrieved successfully", none))
      not_found_or_500

unfoldable pub delete_user : ℕ → String → Db → Handled UserResponse × Db
delete_user id schema =
    respond
      (do
        old ← Service.get_user_by_id id schema
        done ← Service.delete_user id schema
        pure (
          send_success none "User deleted successfully",
          some (record { entity_id = id; old_values = some (snapshot old); new_values = none }),
        ))
      not_found_or_500

module _ (hash : ℕ → String → String) where
  unfoldable pub create_user : CreateUserBody → Option ℕ → String → Db → Handled UserResponse × Db
  create_user body tenant_id schema =
      respond
        (do
          user ← Service.create_user hash (create_user_dto body tenant_id) schema
          pure (
            send_created user "User created successfully",
            some (record {
              entity_id = user.id;
              old_values = none;
              new_values = some (snapshot user);
            }),
          ))
        create_error

  unfoldable pub update_user : ℕ → UpdateUserDto → String → Db → Handled UserResponse × Db
  update_user id dto schema =
      respond
        (do
          old ← Service.get_user_by_id id schema
          user ← Service.update_user hash id dto schema
          pure (
            send_success (some user) "User updated successfully",
            some (record {
              entity_id = user.id;
              old_values = some (snapshot old);
              new_values = some (snapshot user);
            }),
          ))
        user_error
