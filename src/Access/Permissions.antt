-- ===== src/Access/Permissions.antt =====
-- The permission matrix, read by resource: who may do what.
use real_estate_multi_tenant.Prelude.{String, ◌≡◌, ◌↔◌, ◌⊎◌, true, arith, eq_iff, str_eq}
use real_estate_multi_tenant.Access.Roles.{
  Resource, tenants, users, projects, units, audit_logs, stats, Action, create, read, update,
  delete, book, deactivate, activate, super_admin, admin, sales, viewer, has_permission,
}

-- A member of a tenant.
abbrev pub IsMember : String → Type 0
IsMember role = (role ≡ admin) ⊎ (role ≡ sales) ⊎ (role ≡ viewer)

abbrev TenantsGranted : String → Action → Type 0
TenantsGranted role delete = ⊥
TenantsGranted role book = ⊥
TenantsGranted role action = role ≡ super_admin

-- Members read, and an admin writes.
abbrev MembersGranted : String → Action → Type 0
MembersGranted role read = IsMember role
MembersGranted role create = role ≡ admin
MembersGranted role update = role ≡ admin
MembersGranted role delete = role ≡ admin
MembersGranted role action = ⊥

abbrev pub Granted : String → Resource → Action → Type 0
Granted role tenants action = TenantsGranted role action
Granted role stats read = role ≡ super_admin
Granted role stats action = ⊥
Granted role users read = role ≡ admin
Granted role users action = MembersGranted role action
Granted role projects action = MembersGranted role action
Granted role units book = (role ≡ admin) ⊎ (role ≡ sales)
Granted role units action = MembersGranted role action
Granted role audit_logs read = IsMember role
Granted role audit_logs action = ⊥

abbrev Characterised : String → Resource → Action → Type 0
Characterised role resource action =
    (has_permission role resource action ≡ true) ↔ Granted role resource action

abbrev Tells : String → String → Type 0
Tells x y = (str_eq x y ≡ true) ↔ (x ≡ y)

module _ (role : String) where
  -- The role against the four names, and the names against each other.
  names :
      Tells super_admin role
      × Tells admin role
      × Tells sales role
      × Tells viewer role
      × Tells super_admin admin
      × Tells super_admin sales
      × Tells super_admin viewer
      × Tells admin sales
      × Tells admin viewer
      × Tells sales viewer
  names = (
    eq_iff super_admin role,
    eq_iff admin role,
    eq_iff sales role,
    eq_iff viewer role,
    eq_iff super_admin admin,
    eq_iff super_admin sales,
    eq_iff super_admin viewer,
    eq_iff admin sales,
    eq_iff admin viewer,
    eq_iff sales viewer,
  )

  tenants-Granted : (action : Action) → Characterised role tenants action
  unfolding has_permission
  tenants-Granted create = ground (arith, names)
  tenants-Granted read = ground (arith, names)
  tenants-Granted update = ground (arith, names)
  tenants-Granted delete = ground (arith, names)
  tenants-Granted book = ground (arith, names)
  tenants-Granted deactivate = ground (arith, names)
  tenants-Granted activate = ground (arith, names)

  users-Granted : (action : Action) → Characterised role users action
  unfolding has_permission
  users-Granted create = ground (arith, names)
  users-Granted read = ground (arith, names)
  users-Granted update = ground (arith, names)
  users-Granted delete = ground (arith, names)
  users-Granted book = ground (arith, names)
  users-Granted deactivate = ground (arith, names)
  users-Granted activate = ground (arith, names)

  projects-Granted : (action : Action) → Characterised role projects action
  unfolding has_permission
  projects-Granted create = ground (arith, names)
  projects-Granted read = ground (arith, names)
  projects-Granted update = ground (arith, names)
  projects-Granted delete = ground (arith, names)
  projects-Granted book = ground (arith, names)
  projects-Granted deactivate = ground (arith, names)
  projects-Granted activate = ground (arith, names)

  units-Granted : (action : Action) → Characterised role units action
  unfolding has_permission
  units-Granted create = ground (arith, names)
  units-Granted read = ground (arith, names)
  units-Granted update = ground (arith, names)
  units-Granted delete = ground (arith, names)
  units-Granted book = ground (arith, names)
  units-Granted deactivate = ground (arith, names)
  units-Granted activate = ground (arith, names)

  audit_logs-Granted : (action : Action) → Characterised role audit_logs action
  unfolding has_permission
  audit_logs-Granted create = ground (arith, names)
  audit_logs-Granted read = ground (arith, names)
  audit_logs-Granted update = ground (arith, names)
  audit_logs-Granted delete = ground (arith, names)
  audit_logs-Granted book = ground (arith, names)
  audit_logs-Granted deactivate = ground (arith, names)
  audit_logs-Granted activate = ground (arith, names)

  stats-Granted : (action : Action) → Characterised role stats action
  unfolding has_permission
  stats-Granted create = ground (arith, names)
  stats-Granted read = ground (arith, names)
  stats-Granted update = ground (arith, names)
  stats-Granted delete = ground (arith, names)
  stats-Granted book = ground (arith, names)
  stats-Granted deactivate = ground (arith, names)
  stats-Granted activate = ground (arith, names)

-- The permission matrix grants what its reading by resource says, to each role and for each action:
-- tenants and statistics to the Super Admin, without deletion; users to an Admin; projects and
-- units to every member for reading and to an Admin for writing; booking to an Admin and Sales; and
-- the audit log to every member, for reading.
pub has_permission_iff :
    (role : String) (resource : Resource) (action : Action)
    → (has_permission role resource action ≡ true) ↔ Granted role resource action
has_permission_iff role tenants action = tenants-Granted role action
has_permission_iff role users action = users-Granted role action
has_permission_iff role projects action = projects-Granted role action
has_permission_iff role units action = units-Granted role action
has_permission_iff role audit_logs action = audit_logs-Granted role action
has_permission_iff role stats action = stats-Granted role action
