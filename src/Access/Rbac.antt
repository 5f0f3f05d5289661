-- ===== src/Access/Rbac.antt =====
-- src/middleware/rbac.js
use Prim.Native.String
use real_estate_multi_tenant.Prelude.{
  ℕ, String, Bool, Option, none, some, ◌||◌, ◌==◌, str_eq, if◌then◌else◌,
}
use real_estate_multi_tenant.Access.Roles.{
  Resource, Action, resource_name, action_name, has_permission, is_super_admin,
}
use real_estate_multi_tenant.Access.Request.{AuthUser, Step, next, deny}
use real_estate_multi_tenant.Access.Auth.{truthy}

abbrev not_permitted : String → Resource → Action → String
not_permitted role resource action = String.◌++◌ "Insufficient permissions. Role '" (
    String.◌++◌ role (
      String.◌++◌ "' cannot perform '" (
        String.◌++◌ (action_name action)
          (String.◌++◌ "' on '" (String.◌++◌ (resource_name resource) "'")))))

abbrev pub with_role : Option String → (String → Step (Unit {0})) → Step (Unit {0})
with_role none f = deny 401 "Authentication required"
with_role (some role) f = f role

-- `!req.user || !req.user.role`
abbrev role_of : Option AuthUser → Option String
role_of none = none
role_of (some user) = truthy user.role

unfoldable pub check_permission : Resource → Action → Option AuthUser → Step (Unit {0})
check_permission resource action user = with_role (role_of user) λ role.
    if has_permission role resource action
    then next tt
    else deny 403 (not_permitted role resource action)

unfoldable pub require_super_admin : Option AuthUser → Step (Unit {0})
require_super_admin user =
    with_role (role_of user)
      λ role. if is_super_admin role then next tt else deny 403 "Super Admin access required"

unfoldable pub require_admin : Option AuthUser → Step (Unit {0})
require_admin user = with_role (role_of user) λ role.
    if is_super_admin role || str_eq role "Admin" then next tt else deny 403 "Admin access required"

-- `id` is `parseInt(req.params.id)`, `none` where that is not a number.
abbrev same_id : Option AuthUser → Option ℕ → Bool
same_id (some user) (some id) = user.id == id
same_id _ _ = Bool.false

unfoldable pub require_owner_or_admin : Option ℕ → Option AuthUser → Step (Unit {0})
require_owner_or_admin id user = with_role (role_of user) λ role.
    if is_super_admin role || str_eq role "Admin"
    then next tt
    else if same_id user id
    then next tt
    else deny 403 "You can only access your own resources"
