-- ===== src/Schemas/Upward.antt =====
-- What the `up` of each migration makes of a schema where no statement fails.
use real_estate_multi_tenant.Prelude.{
  ◌≡◌, refl, ap, any, String, str_eq, arith, not, ◌&&◌, Bool, true, List, [], ◌∷◌, some, is_some,
  ◌∙◌,
}
use real_estate_multi_tenant.Db.{Db, M, ◌>>◌, Relation, users, projects, units, audit_logs}
use real_estate_multi_tenant.Schemas.Migrations.{
  Migration, users_table, projects_table, units_table, audit_logs_table, create_table, has_rows,
  emails_unique, add_index, add_indexes, anywhere, up,
}
use real_estate_multi_tenant.Schemas.Slots.{
  Tables, kept, Holds, Goes, then-Goes, index-Goes, Slot, create-Goes, users_slot, projects_slot,
  units_slot, audit_logs_slot,
}

module _ (name : String) where
  -- The names beside those that a schema has, in the order in which they come.
  abbrev pub added : List String → List String → List String
  added [] names = names
  added (index ∷ rest) names = added rest (index ∷ names)

  abbrev pub all_new : List String → List String → Bool
  all_new [] names = true
  all_new (index ∷ rest) names = not (any (str_eq index) names) && all_new rest (index ∷ names)

  indexes-Goes :
      {Row : Type 0} (R : Relation Row) (slot : Slot name R) (t : Tables) (indexes : List String)
      → ((names : List String)
          → has_rows (λ rows. true) (slot.get (record t { indexes = names })) ≡ true)
      → all_new indexes t.indexes ≡ true
      → Goes name t (record t { indexes = added indexes t.indexes }) (add_indexes R name indexes)
  unfolding add_indexes any
  indexes-Goes R slot t [] there new = λ s h. h
  indexes-Goes R slot t (index ∷ rest) there new =
      let t' = record t { indexes = index ∷ t.indexes } in
      then-Goes name t t' (record t { indexes = added (index ∷ rest) t.indexes })
        (add_index R name (λ rows. true) index) (add_indexes R name rest)
        (index-Goes name R slot t (λ rows. true) index (there t.indexes) (ground (arith, new)))
        (indexes-Goes R slot t' rest there (ground (arith, new)))

  -- The names of the indexes of a migration.
  abbrev pub names_of : Migration → List String
  names_of users_table = "idx_users_email" ∷ "idx_users_tenant_id" ∷ "idx_users_is_active" ∷ []
  names_of projects_table =
      "idx_projects_tenant_id" ∷ "idx_projects_status" ∷ "idx_projects_is_active" ∷ []
  names_of units_table =
      "idx_units_project_id" ∷ "idx_units_status" ∷ "idx_units_price" ∷ "idx_units_is_active"
      ∷ "idx_units_project_status" ∷ []
  names_of audit_logs_table =
      "idx_audit_logs_user_id" ∷ "idx_audit_logs_entity" ∷ "idx_audit_logs_action"
      ∷ "idx_audit_logs_created_at" ∷ []

  -- What a migration makes of the tables of the schema.
  abbrev pub with_table : Migration → Tables → Tables
  with_table users_table t = record t { users = some (kept t.users) }
  with_table projects_table t = record t { projects = some (kept t.projects) }
  with_table units_table t = record t { units = some (kept t.units) }
  with_table audit_logs_table t = record t { audit_logs = some (kept t.audit_logs) }

  abbrev pub after : Migration → Tables → Tables
  after m t = record (with_table m t) { indexes = added (names_of m) t.indexes }

  -- The emails of the users differ, and the units refer to the projects.
  abbrev pub Ready : Migration → Tables → Type 0
  Ready users_table t = emails_unique (kept t.users).rows ≡ true
  Ready projects_table t = Unit {0}
  Ready units_table t = is_some t.projects ≡ true
  Ready audit_logs_table t = Unit {0}

  table-Goes :
      {Row : Type 0} (R : Relation Row) (slot : Slot name R) (t t' : Tables) (refers : Db → Bool)
      (indexes : M (Unit {0}))
      → ((s : Db) → Holds name t s → refers s ≡ true)
      → Goes name (slot.set (some (kept (slot.get t))) t) t' indexes
      → Goes name t t' (create_table R name refers >> indexes)
  table-Goes R slot t t' refers indexes allowed g =
      then-Goes name t (slot.set (some (kept (slot.get t))) t) t' (create_table R name refers)
        indexes (create-Goes name R slot t refers allowed) g

  pub up-Goes :
      (m : Migration) (t : Tables)
      → Ready m t
      → all_new (names_of m) t.indexes ≡ true
      → Goes name t (after m t) (up m name)
  unfolding up any
  up-Goes users_table t ready new =
      let t1 = with_table users_table t in
      table-Goes users (users_slot name) t (after users_table t) anywhere _ (λ s h. refl)
        (then-Goes name t1 (record t1 { indexes = "idx_users_email" ∷ t1.indexes })
          (after users_table t) _ _
          (index-Goes name users (users_slot name) t1 emails_unique "idx_users_email" ready
            (ground (arith, new)))
          (indexes-Goes users (users_slot name)
            (record t1 { indexes = "idx_users_email" ∷ t1.indexes }) _ (λ names. refl)
            (ground (arith, new))))
  up-Goes projects_table t ready new =
      table-Goes projects (projects_slot name) t (after projects_table t) anywhere _ (λ s h. refl)
        (indexes-Goes projects (projects_slot name) (with_table projects_table t) _ (λ names. refl)
          new)
  up-Goes units_table t ready new =
      table-Goes units (units_slot name) t (after units_table t) (λ s. is_some (s.projects name)) _
        (λ s h. ap is_some (ap (λ (x : Tables). x.projects) h.tables) ∙ ready)
        (indexes-Goes units (units_slot name) (with_table units_table t) _ (λ names. refl) new)
  up-Goes audit_logs_table t ready new =
      table-Goes audit_logs (audit_logs_slot name) t (after audit_logs_table t) anywhere _
        (λ s h. refl)
        (indexes-Goes audit_logs (audit_logs_slot name) (with_table audit_logs_table t) _
          (λ names. refl) new)
