-- ===== src/Projects/Guard.antt =====
-- Who may do what with the projects of a tenant.
use real_estate_multi_tenant.Prelude.{String, ◌≡◌, Bool, true, List, some}
use real_estate_multi_tenant.Db.{ProjectRow, Db}
use real_estate_multi_tenant.Access.Roles.{admin}
use real_estate_multi_tenant.Access.Roles
use real_estate_multi_tenant.Access.Permissions.{IsMember}
use real_estate_multi_tenant.Access.Request.{Request, AuthUser, Scope}
use real_estate_multi_tenant.Access.Guard.{
  Refused, member_route-Refused, admin_route-Refused, lacks_permission,
}
use real_estate_multi_tenant.Projects.Routes.{
  ProjectCall, create_call, list_call, get_call, update_call, delete_call, project_route,
}

abbrev pub MayCall : String → ProjectCall → Type 0
MayCall role (create_call body) = role ≡ admin
MayCall role (list_call filter page limit) = IsMember role
MayCall role (get_call id) = IsMember role
MayCall role (update_call id dto) = role ≡ admin
MayCall role (delete_call id) = role ≡ admin

module _ (order : List ProjectRow → List ProjectRow) (req : Request) (passes : Bool) where
  -- A user whose role does not allow a call under /projects gets 400, 401 or 403 for it, and the
  -- database is as it was: only an Admin creates, updates and deletes projects, and only members of a
  -- tenant read them, so a Super Admin does none of these.
  pub project_route-Refused :
      (call : ProjectCall) (user : AuthUser) (scope : Scope) (role : String) (s : Db)
      → user.role ≡ some role
      → ¬ MayCall role call
      → Refused (project_route order req passes call user scope) s
  unfolding project_route
  project_route-Refused (create_call body) user scope role s has n =
      admin_route-Refused user role has passes Roles.projects Roles.create _ s
        (lacks_permission role Roles.projects Roles.create n)
  project_route-Refused (list_call filter page limit) user scope role s has n =
      member_route-Refused user role has true Roles.projects Roles.read _ s
        (lacks_permission role Roles.projects Roles.read n)
  project_route-Refused (get_call id) user scope role s has n =
      member_route-Refused user role has passes Roles.projects Roles.read _ s
        (lacks_permission role Roles.projects Roles.read n)
  project_route-Refused (update_call id dto) user scope role s has n =
      admin_route-Refused user role has passes Roles.projects Roles.update _ s
        (lacks_permission role Roles.projects Roles.update n)
  project_route-Refused (delete_call id) user scope role s has n =
      admin_route-Refused user role has passes Roles.projects Roles.delete _ s
        (lacks_permission role Roles.projects Roles.delete n)
