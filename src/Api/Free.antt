-- ===== src/Api/Free.antt =====
-- The writes of a part of the API, for a preorder that does not look at its table.
use real_estate_multi_tenant.Prelude.{ℕ, String}
use real_estate_multi_tenant.Db.{Table, Db, Relation, insert_into, units, users, projects, tenants}
use real_estate_multi_tenant.Db.Respects.{Preorder, Respects, Respects-insert, Respects-update}
use real_estate_multi_tenant.Access.Isolation.{Logging}
use real_estate_multi_tenant.Db.Transaction.{rolled_back}
use real_estate_multi_tenant.Schemas.Actions.{SchemaWrites}
use real_estate_multi_tenant.Tenants.Dto.{AdminData}
use real_estate_multi_tenant.Tenants.Service.{admin_row}
use real_estate_multi_tenant.Tenants.Creating.{TenantWrites}
use real_estate_multi_tenant.Users.Repository.{accepts}
use real_estate_multi_tenant.Users.Actions.{UserWrites}
use real_estate_multi_tenant.Projects.Actions.{ProjectWrites}
use real_estate_multi_tenant.Units.Actions.{UnitWrites}

-- Any write of the table is allowed.
abbrev pub Free : (Db → Db → Type 0) → {Row : Type 0} → Relation Row → Type 0
Free R {Row} T = (name : String) (s : Db) (t : Table Row) → R s (T.write name t s)

module _ {R : Db → Db → Type 0} (P : Preorder R) (schema : String) (L : Logging R schema) where
  pub free_units : Free R units → UnitWrites R schema
  free_units free = record {
    inserting = λ body.
        Respects-insert P units schema _ _ (λ s t e c. free schema s _) (λ s t e. free schema s _);
    setting = λ id dto. Respects-update P units schema _ _ _ (λ s t e c. free schema s _);
    booking = λ id user_id. Respects-update P units schema _ _ _ (λ s t e c. free schema s _);
    selling = λ id. Respects-update P units schema _ _ _ (λ s t e c. free schema s _);
    deleting = λ id. Respects-update P units schema _ _ _ (λ s t e c. free schema s _);
    logging = L;
  }

  pub free_projects : Free R projects → ProjectWrites R schema
  free_projects free = record {
    inserting = λ dto.
        Respects-insert P projects schema _ _ (λ s t e c. free schema s _)
          (λ s t e. free schema s _);
    setting = λ id dto. Respects-update P projects schema _ _ _ (λ s t e c. free schema s _);
    deleting = λ id. Respects-update P projects schema _ _ _ (λ s t e c. free schema s _);
    logging = L;
  }

  pub free_users : (hash : ℕ → String → String) → Free R users → UserWrites hash R schema
  free_users hash free = record {
    inserting = λ dto hashed.
        Respects-insert P users schema _ _ (λ s t e c. free schema s _) (λ s t e. free schema s _);
    setting = λ id salt dto. Respects-update P users schema _ _ _ (λ s t e c. free schema s _);
    deleting = λ id. Respects-update P users schema _ _ _ (λ s t e c. free schema s _);
    logging = L;
  }

module _ {R : Db → Db → Type 0} (P : Preorder R) where
  -- The administrator of a new tenant is a row of a table of users.
  pub any_admin :
      Free R users
      → (name hashed : String) (admin : AdminData)
      → Respects R (insert_into users name (accepts name) (admin_row admin hashed))
  any_admin free name hashed admin =
      Respects-insert P users name _ _ (λ s t e c. free name s _) (λ s t e. free name s _)

  -- The registry is free, and the rest of a creation is as it is given.
  pub free_tenants :
      Free R tenants
      → ((name hashed : String) (admin : AdminData)
          → Respects R (insert_into users name (accepts name) (admin_row admin hashed)))
      → SchemaWrites R
      → ((s0 s : Db) → R s0 s → R s0 (rolled_back s0 s))
      → TenantWrites R
  free_tenants free admins making undoing = record {
    inserting = λ input.
        Respects-insert P tenants "public" _ _ (λ s t e c. free "public" s _)
          (λ s t e. free "public" s _);
    changing = λ id c. Respects-update P tenants "public" _ _ _ (λ s t e c. free "public" s _);
    adding_admin = admins;
    making = making;
    undoing = undoing;
  }
