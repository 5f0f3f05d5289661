-- ===== src/Schemas/Actions.antt =====
-- Making a schema and running its migrations keeps to a preorder on states if the schema itself and
-- each empty table that is new do.
use real_estate_multi_tenant.Prelude.{
  String, Bool, not, any, str_eq, ◌&&◌, ◌≡◌, refl, List, [], ◌∷◌, Option, none, some, is_some,
  if◌then◌else◌,
}
use real_estate_multi_tenant.Db.{
  Table, Db, M, Result, lift, Relation, units, projects, users, audit_logs, ◌>>◌,
}
use real_estate_multi_tenant.Db.Respects.{
  Preorder, Respects, Respects-run, Respects-bind, Respects-pure, Respects-attempt, Respects-raise,
  R-if-known,
}
use real_estate_multi_tenant.Schemas.Manager.{has_schema, with_schema, create_schema, because}
use real_estate_multi_tenant.Schemas.Migrations.{
  Migration, users_table, projects_table, units_table, audit_logs_table, empty, make, create_table,
  has_rows, emails_unique, with_index, add_index, add_indexes, anywhere, up, run_all,
  run_tenant_migration,
}

abbrev pub Adds : (Db → Db → Type 0) → {Row : Type 0} → Relation Row → Type 0
Adds R T = (name : String) (s : Db) → T.read s name ≡ none → R s (T.write name empty s)

pub record SchemaWrites (R : Db → Db → Type 0) : Type 0 where
  pub making : (name : String) (s : Db) → R s (with_schema name s)
  pub indexing : (name index : String) (s : Db) → R s (with_index name index s)
  pub add_users : Adds R users
  pub add_projects : Adds R projects
  pub add_units : Adds R units
  pub add_audit_logs : Adds R audit_logs

module _ {R : Db → Db → Type 0} (P : Preorder R) where
  make-R :
      {Row : Type 0} (T : Relation Row) (name : String)
      → Adds R T
      → (s : Db) (t : Option (Table Row)) → T.read s name ≡ t
      → R s (make T name t s)
  make-R T name adds s none e = adds name s e
  make-R T name adds s (some t) e = P.refl s

  create_table-Respects :
      {Row : Type 0} (T : Relation Row) (name : String) (refers : Db → Bool)
      → Adds R T
      → Respects R (create_table T name refers)
  unfolding create_table
  create_table-Respects T name refers adds =
      Respects-run P
        (λ s.
          if has_schema s name && refers s
          then (some tt, make T name (T.read s name) s)
          else (none, s))
        (λ s.
          R-if-known P (has_schema s name && refers s) _ _
            (λ e. make-R T name adds s (T.read s name) refl) (P.refl s))

  then-Respects : {m n : M (Unit {0})} → Respects R m → Respects R n → Respects R (m >> n)
  then-Respects hm hn = Respects-bind P _ _ hm (λ done. hn)

  module _ (W : SchemaWrites R) where
    add_index-Respects :
        {Row : Type 0} (T : Relation Row) (name : String) (unique : List Row → Bool)
        (index : String)
        → Respects R (add_index T name unique index)
    unfolding add_index
    add_index-Respects T name unique index =
        Respects-run P
          (λ s.
            if has_rows unique (T.read s name) && not (any (str_eq index) (s.indexes name))
            then (some tt, with_index name index s)
            else (none, s))
          (λ s.
            R-if-known P
              (has_rows unique (T.read s name) && not (any (str_eq index) (s.indexes name))) _ _
              (λ e. W.indexing name index s) (P.refl s))

    add_indexes-Respects :
        {Row : Type 0} (T : Relation Row) (name : String) (indexes : List String)
        → Respects R (add_indexes T name indexes)
    unfolding add_indexes
    add_indexes-Respects T name [] = Respects-pure P tt
    add_indexes-Respects T name (index ∷ rest) =
        then-Respects (add_index-Respects T name (λ rows. Bool.true) index)
          (add_indexes-Respects T name rest)

    up-Respects : (m : Migration) (name : String) → Respects R (up m name)
    unfolding up
    up-Respects users_table name =
        then-Respects (create_table-Respects users name anywhere W.add_users) (
          then-Respects (add_index-Respects users name emails_unique _)
            (add_indexes-Respects users name _))
    up-Respects projects_table name =
        then-Respects (create_table-Respects projects name anywhere W.add_projects)
          (add_indexes-Respects projects name _)
    up-Respects units_table name =
        then-Respects
          (create_table-Respects units name (λ s. is_some (s.projects name)) W.add_units)
          (add_indexes-Respects units name _)
    up-Respects audit_logs_table name =
        then-Respects (create_table-Respects audit_logs name anywhere W.add_audit_logs)
          (add_indexes-Respects audit_logs name _)

    run_all-Respects : (ms : List Migration) (name : String) → Respects R (run_all ms name)
    unfolding run_all
    run_all-Respects [] name = Respects-pure P tt
    run_all-Respects (m ∷ rest) name =
        Respects-bind P _ _ (up-Respects m name) (λ done. run_all-Respects rest name)

    pub migration-Respects :
        (pending : String → Db → Result (List Migration)) (name : String)
        → Respects R (run_tenant_migration pending name)
    unfolding run_tenant_migration
    migration-Respects pending name =
        Respects-bind P _ _
          (Respects-run P (λ s. (some tt, record s { search_path = name })) (λ s. P.path s name))
          (λ done.
            Respects-bind P (λ s. lift (pending name s) s) _ (record { at = P.refl })
              (λ ms. run_all-Respects ms name))

    pub create_schema-Respects : (name : String) → Respects R (create_schema name)
    unfolding create_schema
    create_schema-Respects name =
        Respects-attempt P _ (because "Failed to create tenant schema: ")
          (Respects-run P (λ s. (some tt, with_schema name s)) (W.making name))
          (λ e. Respects-raise P _)
