-- ===== src/Units/Guard.antt =====
-- Who may reach the units: what a request may ask for by the role of its user.
use real_estate_multi_tenant.Prelude.{String, ◌≡◌, Bool, List, none, some, ◌⊎◌}
use real_estate_multi_tenant.Db.{UnitRow, Db}
use real_estate_multi_tenant.Access.Roles.{admin, sales}
use real_estate_multi_tenant.Access.Roles
use real_estate_multi_tenant.Access.Request.{Verified, Request, AuthUser, Scope}
use real_estate_multi_tenant.Access.Auth.{optional_auth}
use real_estate_multi_tenant.Access.Permissions.{IsMember}
use real_estate_multi_tenant.Access.Guard.{
  Refused, member_route-Refused, admin_route-Refused, lacks_permission, scoped-Refused,
}
use real_estate_multi_tenant.Units.Routes.{
  UnitCall, create_call, list_call, get_call, update_call, book_call, delete_call, unit_route,
  handle,
}

abbrev pub MayCall : String → UnitCall → Type 0
MayCall role (create_call body) = role ≡ admin
MayCall role (list_call filter page limit) = IsMember role
MayCall role (get_call id) = IsMember role
MayCall role (update_call id dto) = role ≡ admin
MayCall role (book_call id) = (role ≡ admin) ⊎ (role ≡ sales)
MayCall role (delete_call id) = role ≡ admin

module _ (order : List UnitRow → List UnitRow) (req : Request) (passes : Bool) where
  -- A user whose role does not allow a call gets 400, 401 or 403 for it, and no table changes: only
  -- an Admin creates, updates and deletes units, only an Admin and Sales book them, and only
  -- members of a tenant read them, so a Super Admin does none of these.
  pub unit_route-Refused :
      (call : UnitCall) (user : AuthUser) (scope : Scope) (role : String) (s : Db)
      → user.role ≡ some role
      → ¬ MayCall role call
      → Refused (unit_route order req passes call user scope) s
  unfolding unit_route
  unit_route-Refused (create_call body) user scope role s has n =
      admin_route-Refused user role has passes Roles.units Roles.create _ s
        (lacks_permission role Roles.units Roles.create n)
  unit_route-Refused (list_call filter page limit) user scope role s has n =
      member_route-Refused user role has passes Roles.units Roles.read _ s
        (lacks_permission role Roles.units Roles.read n)
  unit_route-Refused (get_call id) user scope role s has n =
      member_route-Refused user role has passes Roles.units Roles.read _ s
        (lacks_permission role Roles.units Roles.read n)
  unit_route-Refused (update_call id dto) user scope role s has n =
      admin_route-Refused user role has passes Roles.units Roles.update _ s
        (lacks_permission role Roles.units Roles.update n)
  unit_route-Refused (book_call id) user scope role s has n =
      member_route-Refused user role has passes Roles.units Roles.book _ s
        (lacks_permission role Roles.units Roles.book n)
  unit_route-Refused (delete_call id) user scope role s has n =
      admin_route-Refused user role has passes Roles.units Roles.delete _ s
        (lacks_permission role Roles.units Roles.delete n)

  -- A request in which no verified token is found is refused, and no statement runs.
  pub handle-Refused :
      (verify : String → Verified) (call : UnitCall) (s : Db)
      → optional_auth verify req ≡ none
      → Refused (handle order req passes verify call) s
  unfolding handle
  handle-Refused verify call s h = scoped-Refused verify req _ s h
