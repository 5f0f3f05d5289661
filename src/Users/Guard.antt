-- ===== src/Users/Guard.antt =====
-- Who may reach the users of a tenant.
use real_estate_multi_tenant.Prelude.{ℕ, String, ◌≡◌, ◌≢◌, Bool, true, List, some}
use real_estate_multi_tenant.Db.{UserRow, Db}
use real_estate_multi_tenant.Access.Roles.{admin}
use real_estate_multi_tenant.Access.Roles
use real_estate_multi_tenant.Access.Request.{Request, AuthUser, Scope}
use real_estate_multi_tenant.Access.Guard.{
  Refused, member_route-Refused, admin_route-Refused, lacks_permission,
}
use real_estate_multi_tenant.Users.Routes.{
  UserCall, create_call, list_call, get_call, update_call, delete_call, user_route,
}

module _ (hash : ℕ → String → String) (order : List UserRow → List UserRow) (req : Request)
    (passes : Bool) where
  -- A user who is not an Admin of the tenant gets 400, 401 or 403 for every route under /users, and
  -- the database is as it was.
  pub user_route-Refused :
      (call : UserCall) (user : AuthUser) (scope : Scope) (role : String) (s : Db)
      → user.role ≡ some role
      → role ≢ admin
      → Refused (user_route hash order req passes call user scope) s
  unfolding user_route
  user_route-Refused (create_call body) user scope role s has n =
      admin_route-Refused user role has passes Roles.users Roles.create _ s
        (lacks_permission role Roles.users Roles.create n)
  user_route-Refused (list_call active_only page limit) user scope role s has n =
      member_route-Refused user role has true Roles.users Roles.read _ s
        (lacks_permission role Roles.users Roles.read n)
  user_route-Refused (get_call id) user scope role s has n =
      member_route-Refused user role has passes Roles.users Roles.read _ s
        (lacks_permission role Roles.users Roles.read n)
  user_route-Refused (update_call id dto) user scope role s has n =
      admin_route-Refused user role has passes Roles.users Roles.update _ s
        (lacks_permission role Roles.users Roles.update n)
  user_route-Refused (delete_call id) user scope role s has n =
      admin_route-Refused user role has passes Roles.users Roles.delete _ s
        (lacks_permission role Roles.users Roles.delete n)
