-- ===== src/Access/Roles.antt =====
-- src/config/roles.js
use real_estate_multi_tenant.Prelude.{
  String, Bool, false, List, [], ◌∷◌, Option, none, some, any, str_eq, if◌then◌else◌,
}

pub data Resource : Type 0 where
  tenants users projects units audit_logs stats : Resource

pub data Action : Type 0 where
  create read update delete book deactivate activate : Action

abbrev pub super_admin : String
super_admin = "Super Admin"

abbrev pub admin : String
admin = "Admin"

abbrev pub sales : String
sales = "Sales"

abbrev pub viewer : String
viewer = "Viewer"

-- The values of the objects RESOURCES and ACTIONS.
abbrev pub resource_name : Resource → String
resource_name tenants = "tenants"
resource_name users = "users"
resource_name projects = "projects"
resource_name units = "units"
resource_name audit_logs = "audit_logs"
resource_name stats = "stats"

abbrev pub action_name : Action → String
action_name create = "create"
action_name read = "read"
action_name update = "update"
action_name delete = "delete"
action_name book = "book"
action_name deactivate = "deactivate"
action_name activate = "activate"

abbrev Matrix : Type 0
Matrix = List (String × List (String × List Action))

abbrev permissions : Matrix
permissions =
    (
      super_admin,
      (resource_name tenants, create ∷ read ∷ update ∷ deactivate ∷ activate ∷ [])
          ∷ (resource_name stats, read ∷ [])
          ∷ [],
    )
    ∷ (
      admin,
      (resource_name users, create ∷ read ∷ update ∷ delete ∷ [])
          ∷ (resource_name projects, create ∷ read ∷ update ∷ delete ∷ [])
          ∷ (resource_name units, create ∷ read ∷ update ∷ delete ∷ book ∷ [])
          ∷ (resource_name audit_logs, read ∷ [])
          ∷ [],
    )
    ∷ (
      sales,
      (resource_name projects, read ∷ [])
          ∷ (resource_name units, read ∷ book ∷ [])
          ∷ (resource_name audit_logs, read ∷ [])
          ∷ [],
    )
    ∷ (
      viewer,
      (resource_name projects, read ∷ [])
          ∷ (resource_name units, read ∷ [])
          ∷ (resource_name audit_logs, read ∷ [])
          ∷ [],
    )
    ∷ []

-- `object[key]`, for an object of own properties.
unfoldable pub property {ℓ} : {A : Type ℓ} → String → List (String × A) → Option A
property key [] = none
property key ((k, v) ∷ rest) = if str_eq k key then some v else property key rest

abbrev includes : Option (List Action) → Action → Bool
includes none action = false
includes (some actions) action = any (λ a. str_eq (action_name a) (action_name action)) actions

abbrev of_role : Option (List (String × List Action)) → Resource → Option (List Action)
of_role none resource = none
of_role (some by_resource) resource = property (resource_name resource) by_resource

-- `hasPermission(role, resource, action)`
unfoldable pub has_permission : String → Resource → Action → Bool
unfolding property any
has_permission role resource action = includes (of_role (property role permissions) resource) action

unfoldable pub is_super_admin : String → Bool
is_super_admin role = str_eq role super_admin

unfoldable pub is_admin : String → Bool
is_admin role = str_eq role admin
