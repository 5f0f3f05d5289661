-- ===== src/Users/Actions.antt =====
-- Every route under /users keeps to a preorder on states if its three writes and the audit log do.
use real_estate_multi_tenant.Prelude.{ℕ, ℤ, String, Bool, true, List, Option, none, some, head?}
use real_estate_multi_tenant.Db.{UserRow, Db, users, pure, insert_into, update_where, ◌>>=◌}
use real_estate_multi_tenant.Db.Respects.{
  Preorder, Respects, Respects-if, Respects-bind, Respects-pure, Respects-attempt, respects_rules,
}
use real_estate_multi_tenant.Access.Request.{Verified, Request, AuthUser, Scope}
use real_estate_multi_tenant.Access.Isolation.{Logging}
use real_estate_multi_tenant.Access.Scoped.{
  Keeps, Contained, Contained-respond, Keeps-admin_route, Keeps-member_route, Keeps-audited,
  Keeps-plain, Keeps-with_body, Keeps-scoped,
}
use real_estate_multi_tenant.Users.Dto.{CreateUserBody, CreateUserDto, UpdateUserDto, has_updates}
use real_estate_multi_tenant.Users.Repository
use real_estate_multi_tenant.Users.Repository.{
  has_id, accepts, new_row, set_fields, set_inactive, still_accepts, unchecked,
}
use real_estate_multi_tenant.Users.Service
use real_estate_multi_tenant.Users.Service.{taken}
use real_estate_multi_tenant.Users.Controller
use real_estate_multi_tenant.Users.Routes.{
  UserCall, create_call, list_call, get_call, update_call, delete_call, one, many, user_route,
  users_handle,
}

-- The statements of the repository that write, in one schema, and the write of the audit log.
pub record UserWrites (hash : ℕ → String → String) (R : Db → Db → Type 0) (schema : String)
    : Type 0 where
  pub inserting :
      (dto : CreateUserDto) (password_hash : String)
      → Respects R (insert_into users schema (accepts schema) (new_row dto password_hash))
  pub setting :
      (id salt : ℕ) (dto : UpdateUserDto)
      → Respects R
          (update_where users schema (has_id id) (still_accepts schema) (set_fields hash salt dto))
  pub deleting :
      (id : ℕ) → Respects R (update_where users schema (has_id id) unchecked set_inactive)
  pub logging : Logging R schema

module _ {hash : ℕ → String → String} {R : Db → Db → Type 0} (P : Preorder R) (schema : String)
    (W : UserWrites hash R schema) where
  find_by_id-Respects : (id : ℕ) → Respects R (Repository.find_by_id id schema)
  unfolding Repository.find_by_id
  find_by_id-Respects id = search (P, respects_rules)

  email_exists-Respects :
      (email : String) (exclude : Option ℕ)
      → Respects R (Repository.email_exists email schema exclude)
  unfolding Repository.email_exists
  email_exists-Respects email exclude = search (P, respects_rules)

  create-Respects : (dto : CreateUserDto) → Respects R (Repository.create hash dto schema)
  unfolding Repository.create
  create-Respects dto = record { at = λ s. (W.inserting dto (hash s.statements dto.password)).at s }

  set-Respects :
      (id salt : ℕ) (dto : UpdateUserDto)
      → Respects R (
          update_where users schema (has_id id) (still_accepts schema) (set_fields hash salt dto)
          >>= λ rows. pure (head? rows))
  set-Respects id salt dto =
      Respects-bind P _ _ (W.setting id salt dto) (λ rows. Respects-pure P (head? rows))

  update-Respects :
      (id : ℕ) (dto : UpdateUserDto) → Respects R (Repository.update hash id dto schema)
  unfolding Repository.update
  update-Respects id dto =
      Respects-if P (has_updates dto) _ _
        (record { at = λ s. (set-Respects id s.statements dto).at s }) (find_by_id-Respects id)

  soft_delete-Respects : (id : ℕ) → Respects R (Repository.soft_delete id schema)
  unfolding Repository.soft_delete
  soft_delete-Respects id =
      Respects-attempt P _ (λ e. pure Bool.false)
        (Respects-bind P _ _ (W.deleting id) (λ rows. Respects-pure P true))
        (λ e. Respects-pure P Bool.false)

  found-Respects : (user : Option UserRow) → Respects R (Service.found user)
  unfolding Service.found
  found-Respects none = search (P, respects_rules)
  found-Respects (some user) = search (P, respects_rules)

  taken-Respects : (id : ℕ) (email : Option String) → Respects R (taken id schema email)
  taken-Respects id none = search (P, respects_rules)
  taken-Respects id (some email) = email_exists-Respects email (some id)

  ruleset user_rules = (
    respects_rules, find_by_id-Respects, email_exists-Respects, create-Respects, update-Respects,
    soft_delete-Respects, found-Respects, taken-Respects,
  )

  create_user-Respects : (dto : CreateUserDto) → Respects R (Service.create_user hash dto schema)
  unfolding Service.create_user
  create_user-Respects dto = search (P, user_rules) depth 8

  get_all_users-Respects :
      (order : List UserRow → List UserRow) (active_only : Bool) (page limit : Option ℤ)
      → Respects R (Service.get_all_users order schema active_only page limit)
  unfolding Service.get_all_users Repository.find_all Repository.count
  get_all_users-Respects order active_only page limit = search (P, user_rules)

  get_user_by_id-Respects : (id : ℕ) → Respects R (Service.get_user_by_id id schema)
  unfolding Service.get_user_by_id
  get_user_by_id-Respects id = search (P, user_rules)

  update_user-Respects :
      (id : ℕ) (dto : UpdateUserDto) → Respects R (Service.update_user hash id dto schema)
  unfolding Service.update_user
  update_user-Respects id dto = search (P, user_rules) depth 10

  delete_user-Respects : (id : ℕ) → Respects R (Service.delete_user id schema)
  unfolding Service.delete_user
  delete_user-Respects id = search (P, user_rules) depth 8

  ruleset service_rules = (
    respects_rules, Contained-respond, create_user-Respects, get_all_users-Respects,
    get_user_by_id-Respects, update_user-Respects, delete_user-Respects,
  )

  create_user-Contained :
      (body : CreateUserBody) (tenant_id : Option ℕ)
      → Contained R (Controller.create_user hash body tenant_id schema)
  unfolding Controller.create_user
  create_user-Contained body tenant_id = search (P, service_rules)

  get_all_users-Contained :
      (order : List UserRow → List UserRow) (active_only : Bool) (page limit : Option ℤ)
      → Contained R (Controller.get_all_users order schema active_only page limit)
  unfolding Controller.get_all_users
  get_all_users-Contained order active_only page limit = search (P, service_rules)

  get_user_by_id-Contained : (id : ℕ) → Contained R (Controller.get_user_by_id id schema)
  unfolding Controller.get_user_by_id
  get_user_by_id-Contained id = search (P, service_rules)

  update_user-Contained :
      (id : ℕ) (dto : UpdateUserDto) → Contained R (Controller.update_user hash id dto schema)
  unfolding Controller.update_user
  update_user-Contained id dto = search (P, service_rules)

  delete_user-Contained : (id : ℕ) → Contained R (Controller.delete_user id schema)
  unfolding Controller.delete_user
  delete_user-Contained id = search (P, service_rules)

module _ {hash : ℕ → String → String} {R : Db → Db → Type 0} (P : Preorder R)
    (order : List UserRow → List UserRow) (req : Request) (passes : Bool) where
  pub user_route-Keeps :
      (call : UserCall) (user : AuthUser) (scope : Scope)
      → UserWrites hash R scope.tenant_schema
      → Keeps R (user_route hash order req passes call user scope)
  unfolding user_route
  user_route-Keeps (create_call body) user scope W = Keeps-admin_route P _ _ _ user _ (
      Keeps-with_body P one _ (
        Keeps-audited P _ _ req user scope _ W.logging
          (create_user-Contained P _ W body scope.tenant_id)))
  user_route-Keeps (list_call active_only page limit) user scope W =
      Keeps-member_route P _ _ _ user _ (
        Keeps-with_body P many _
          (Keeps-plain P _ (get_all_users-Contained P _ W order active_only page limit)))
  user_route-Keeps (get_call id) user scope W =
      Keeps-member_route P _ _ _ user _
        (Keeps-with_body P one _ (Keeps-plain P _ (get_user_by_id-Contained P _ W id)))
  user_route-Keeps (update_call id dto) user scope W = Keeps-admin_route P _ _ _ user _ (
      Keeps-with_body P one _
        (Keeps-audited P _ _ req user scope _ W.logging (update_user-Contained P _ W id dto)))
  user_route-Keeps (delete_call id) user scope W = Keeps-admin_route P _ _ _ user _ (
      Keeps-with_body P one _
        (Keeps-audited P _ _ req user scope _ W.logging (delete_user-Contained P _ W id)))

  pub users_handle-Keeps :
      (verify : String → Verified) (call : UserCall)
      → ((schema : String) → UserWrites hash R schema)
      → Keeps R (users_handle hash order req passes verify call)
  unfolding users_handle
  users_handle-Keeps verify call W =
      Keeps-scoped P verify req _ (λ user scope. user_route-Keeps call user scope (W _))
