-- ===== src/Schemas/Complete.antt =====
-- `runTenantMigration` where no statement fails.
use mathlib.Core.Path.{subst}
use real_estate_multi_tenant.Prelude.{
  sym, ◌≡◌, refl, ap, any, Bool-cases, inl, inr, String, true, List, [], ◌∷◌, some, eq_iff,
}
use real_estate_multi_tenant.Db.{Db, Result, ok, ◌>>◌, run}
use real_estate_multi_tenant.Db.Ends.{Ends, Ends-bind, Ends-attempt}
use real_estate_multi_tenant.Db.Healthy.{Healthy, tick, run-eq}
use real_estate_multi_tenant.Schemas.Manager.{has_schema, with_schema, create_schema}
use real_estate_multi_tenant.Schemas.Migrations.{
  Migration, users_table, projects_table, units_table, audit_logs_table, emails_unique, up, run_all,
  run_tenant_migration,
}
use real_estate_multi_tenant.Schemas.Slots.{
  Tables, tables_of, kept, Fails, Holds, Goes, then-Goes, run-Goes,
}
use real_estate_multi_tenant.Schemas.Upward.{after, up-Goes}

-- The migrations in the order of their files.
abbrev pub in_order : List Migration
in_order = users_table ∷ projects_table ∷ units_table ∷ audit_logs_table ∷ []

-- A schema with all its tables and indexes, the latest index first. A table that was there is as it was.
abbrev pub complete : Tables → Tables
complete t = record {
  users = some (kept t.users);
  projects = some (kept t.projects);
  units = some (kept t.units);
  audit_logs = some (kept t.audit_logs);
  indexes =
      "idx_audit_logs_created_at" ∷ "idx_audit_logs_action" ∷ "idx_audit_logs_entity"
      ∷ "idx_audit_logs_user_id" ∷ "idx_units_project_status" ∷ "idx_units_is_active"
      ∷ "idx_units_price" ∷ "idx_units_status" ∷ "idx_units_project_id" ∷ "idx_projects_is_active"
      ∷ "idx_projects_status" ∷ "idx_projects_tenant_id" ∷ "idx_users_is_active"
      ∷ "idx_users_tenant_id" ∷ "idx_users_email" ∷ [];
}

module _ (name : String) where
  bare-Goes :
      (t : Tables)
      → t.indexes ≡ []
      → emails_unique (kept t.users).rows ≡ true
      → Goes name (record t { indexes = [] }) (complete t) (run_all in_order name)
  unfolding run_all any
  bare-Goes t clear unique =
      let t0 = record t { indexes = [] } in
      let t1 = after name users_table t0 in
      let t2 = after name projects_table t1 in
      let t3 = after name units_table t2 in
      let rest = λ (ms : List Migration). run_all ms name in
      let done : Goes name (complete t) (complete t) (rest []) = λ s h. h in
      let logs : Goes name t3 (complete t) (rest (audit_logs_table ∷ [])) =
        then-Goes name t3 (complete t) (complete t) (up audit_logs_table name) (rest [])
          (up-Goes name audit_logs_table t3 tt refl) done in
      let flats : Goes name t2 (complete t) (rest (units_table ∷ audit_logs_table ∷ [])) =
        then-Goes name t2 t3 (complete t) (up units_table name) _
          (up-Goes name units_table t2 refl refl) logs in
      let buildings : Goes name t1 (complete t)
          (rest (projects_table ∷ units_table ∷ audit_logs_table ∷ [])) =
        then-Goes name t1 t2 (complete t) (up projects_table name) _
          (up-Goes name projects_table t1 tt refl) flats in
      then-Goes name t0 t1 (complete t) (up users_table name) _
        (up-Goes name users_table t0 unique refl) buildings

  all-Goes :
      (t : Tables)
      → t.indexes ≡ []
      → emails_unique (kept t.users).rows ≡ true
      → Goes name t (complete t) (run_all in_order name)
  all-Goes t clear unique =
      subst (λ (x : Tables). Goes name x (complete t) (run_all in_order name))
        (ap (λ names. record t { indexes = names }) (sym clear)) (bare-Goes t clear unique)

  with_schema-Holds : (s : Db) → Healthy s → Holds name (tables_of name s) (with_schema name s)
  unfolding any
  with_schema-Holds s alive = record {
    healthy = alive;
    exists = elim (Bool-cases (has_schema s name)) [
      | inl there ↦ rw there there
      | inr missing ↦ rw (missing, (eq_iff name name).1 refl) refl
    ];
    tables = refl;
  }

  pub create_schema-Ends :
      (s : Db)
      → Healthy s
      → Ends (λ done s'. Holds name (tables_of name s) s') Fails (create_schema name s)
  unfolding create_schema
  create_schema-Ends s alive =
      Ends-attempt (λ done s'. Holds name (tables_of name s) s') Fails Fails
        (run (λ s. (some tt, with_schema name s))) _ s
        (rw (run-eq s (alive s.statements) (λ s. (some tt, with_schema name s)) tt _ refl)
          (with_schema-Holds (tick s) alive))
        (λ e s' bad. bad)

  module _ (pending : String → Db → Result (List Migration)) (t : Tables)
      (reports : (s : Db) → Healthy s → tables_of name s ≡ t → pending name s ≡ ok in_order) where
    pub migration-Goes :
        t.indexes ≡ []
        → emails_unique (kept t.users).rows ≡ true
        → Goes name t (complete t) (run_tenant_migration pending name)
    unfolding run_tenant_migration
    migration-Goes clear unique =
        then-Goes name t t (complete t) (run (λ s. (some tt, record s { search_path = name }))) _
          (run-Goes name t t (λ s. (some tt, record s { search_path = name }))
            λ s h. (
              record s { search_path = name },
              refl,
              record { healthy = h.healthy; exists = h.exists; tables = h.tables },
            ))
          (λ s h. rw (reports s h.healthy h.tables) (all-Goes t clear unique s h))

    -- Where no statement fails, a schema has no index, its users have different emails if it has a table
    -- of them, and umzug reports all four migrations as pending while its tables are as they are, the
    -- schema can be made and migrated, even if it is there already: the calls return, and it exists and
    -- has all its indexes and all four tables, those that were there as they were and the others empty.
    pub run_tenant_migration-Holds :
        (s : Db)
        → Healthy s
        → tables_of name s ≡ t
        → t.indexes ≡ []
        → emails_unique (kept t.users).rows ≡ true
        → Ends
            (λ done s'. Holds name (complete t) s')
            Fails
            ((create_schema name >> run_tenant_migration pending name) s)
    run_tenant_migration-Holds s alive has clear unique =
        Ends-bind (λ done s'. Holds name t s') (λ done s'. Holds name (complete t) s') Fails
          (create_schema name) _ s
          (subst (λ (x : Tables). Ends (λ done s'. Holds name x s') Fails (create_schema name s))
            has (create_schema-Ends s alive))
          (λ done s' h. migration-Goes clear unique s' h)
