-- ===== src/Schemas/Migrations.antt =====
-- The migrations of src/migrations/tenant, and `runTenantMigration` of umzug-tenant.js. `pending` is
-- what the package umzug finds in the files and in its table of what was run: those still to run, in
-- order, or an error of its own statements.
use real_estate_multi_tenant.Prelude.{
  String, Bool, List, [], ◌∷◌, Option, none, some, is_some, if◌then◌else◌, ◌&&◌, not, any, str_eq,
}
use real_estate_multi_tenant.Db.{
  UserRow, Table, Db, Result, M, pure, lift, ◌>>=◌, ◌>>◌, run, Relation, units, projects, users,
  audit_logs,
}
use real_estate_multi_tenant.Schemas.Manager.{has_schema}

pub data Migration : Type 0 where
  users_table projects_table units_table audit_logs_table : Migration

abbrev pub empty : {Row : Type 0} → Table Row
empty = record { rows = []; next = 1 }

module _ {Row : Type 0} (R : Relation Row) (name : String) where
  abbrev pub make : Option (Table Row) → Db → Db
  make none s = R.write name empty s
  make (some t) s = s

  -- CREATE TABLE IF NOT EXISTS: an error where the schema is missing, or the table that a foreign key
  -- refers to.
  unfoldable pub create_table : (Db → Bool) → M (Unit {0})
  unfolding run
  create_table refers =
      run
        λ s. if has_schema s name && refers s then (some tt, make (R.read s name) s) else (none, s)

abbrev pub has_rows : {Row : Type 0} → (List Row → Bool) → Option (Table Row) → Bool
has_rows p none = Bool.false
has_rows p (some t) = p t.rows

-- No two users have the same email.
abbrev pub emails_unique : List UserRow → Bool
emails_unique [] = Bool.true
emails_unique (u ∷ us) = not (any (λ v. str_eq v.email u.email) us) && emails_unique us

-- The index `index` of the schema beside those that it has.
abbrev pub with_index : String → String → Db → Db
with_index name index s = record s {
  indexes = λ other. if str_eq name other then index ∷ s.indexes other else s.indexes other;
}

module _ {Row : Type 0} (R : Relation Row) (name : String) where
  -- CREATE [UNIQUE] INDEX: an error where the table is missing, where the schema has an index of this
  -- name, or where the rows are not unique.
  unfoldable pub add_index : (List Row → Bool) → String → M (Unit {0})
  unfolding run any
  add_index unique index = run λ s.
      if has_rows unique (R.read s name) && not (any (str_eq index) (s.indexes name))
      then (some tt, with_index name index s)
      else (none, s)

  -- One index after the other, none of them unique.
  unfoldable pub add_indexes : List String → M (Unit {0})
  add_indexes [] = pure tt
  add_indexes (index ∷ rest) = do add_index (λ rows. Bool.true) index; add_indexes rest

abbrev pub anywhere : Db → Bool
anywhere s = Bool.true

-- `up` of each migration.
unfoldable pub up : Migration → String → M (Unit {0})
up users_table name = do
  create_table users name anywhere
  add_index users name emails_unique "idx_users_email"
  add_indexes users name ("idx_users_tenant_id" ∷ "idx_users_is_active" ∷ [])
up projects_table name = do
  create_table projects name anywhere
  add_indexes projects name
      ("idx_projects_tenant_id" ∷ "idx_projects_status" ∷ "idx_projects_is_active" ∷ [])
up units_table name = do
  create_table units name (λ s. is_some (s.projects name))
  add_indexes units name (
      "idx_units_project_id" ∷ "idx_units_status" ∷ "idx_units_price" ∷ "idx_units_is_active"
      ∷ "idx_units_project_status" ∷ [])
up audit_logs_table name = do
  create_table audit_logs name anywhere
  add_indexes audit_logs name (
      "idx_audit_logs_user_id" ∷ "idx_audit_logs_entity" ∷ "idx_audit_logs_action"
      ∷ "idx_audit_logs_created_at" ∷ [])

unfoldable pub run_all : List Migration → String → M (Unit {0})
run_all [] name = pure tt
run_all (m ∷ rest) name = do up m name; run_all rest name

-- `runTenantMigration(name, 'up')`
unfoldable pub run_tenant_migration :
    (String → Db → Result (List Migration)) → String → M (Unit {0})
unfolding run
run_tenant_migration pending name = do
  run (λ s. (some tt, record s { search_path = name }))
  migrations ← (λ s. lift (pending name s) s)
  run_all migrations name
