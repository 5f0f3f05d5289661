-- ===== src/Schemas/Slots.antt =====
-- The tables of one schema, and what a statement of a migration makes of them where it does not fail.
use real_estate_multi_tenant.Prelude.{
  ℕ, ◌≡◌, refl, sym, ap, any, String, Bool, true, false, not, List, [], ◌∷◌, Option, none, some,
  str_eq, ◌∙◌, eq_iff, ◌&&◌, if◌then◌else◌,
}
use real_estate_multi_tenant.Db.{
  UserRow, ProjectRow, UnitRow, AuditRow, Table, Db, M, ◌>>◌, run, Relation, users, projects, units,
  audit_logs, update,
}
use real_estate_multi_tenant.Db.Ends.{Ends, Ends-bind}
use real_estate_multi_tenant.Db.Healthy.{Healthy, tick, run-eq}
use real_estate_multi_tenant.Schemas.Manager.{has_schema}
use real_estate_multi_tenant.Schemas.Migrations.{
  empty, make, create_table, has_rows, with_index, add_index,
}

-- The tables of one schema, and the names of its indexes.
pub record Tables : Type 0 where
  pub users : Option (Table UserRow)
  pub projects : Option (Table ProjectRow)
  pub units : Option (Table UnitRow)
  pub audit_logs : Option (Table AuditRow)
  pub indexes : List String

-- A schema without tables.
abbrev pub bare : Tables
bare = record { users = none; projects = none; units = none; audit_logs = none; indexes = [] }

abbrev pub tables_of : String → Db → Tables
tables_of name s = record {
  users = s.users name;
  projects = s.projects name;
  units = s.units name;
  audit_logs = s.audit_logs name;
  indexes = s.indexes name;
}

-- A table that was there is as it was; one that was missing is there, and empty.
abbrev pub kept : {Row : Type 0} → Option (Table Row) → Table Row
kept none = empty
kept (some t) = t

abbrev pub Fails : Db → Type 0
Fails s = ⊥

-- The state between two statements: nothing fails, the schema exists and has these tables.
pub record Holds (name : String) (t : Tables) (s : Db) : Type 0 where
  pub healthy : Healthy s
  pub exists : has_schema s name ≡ true
  pub tables : tables_of name s ≡ t

module _ (name : String) where
  abbrev pub Goes : Tables → Tables → M (Unit {0}) → Type 0
  Goes t t' m = (s : Db) → Holds name t s → Ends (λ done s'. Holds name t' s') Fails (m s)

  pub then-Goes :
      (t t' t'' : Tables) (m n : M (Unit {0})) → Goes t t' m → Goes t' t'' n → Goes t t'' (m >> n)
  then-Goes t t' t'' m n hm hn s h =
      Ends-bind (λ done s'. Holds name t' s') (λ done s'. Holds name t'' s') Fails m (λ done. n) s
        (hm s h) (λ done s'. hn s')

  ticked : (t : Tables) (s : Db) → Holds name t s → Holds name t (tick s)
  ticked t s h = record { healthy = h.healthy; exists = h.exists; tables = h.tables }

  pub run-Goes :
      (t t' : Tables) (stmt : Db → Option (Unit {0}) × Db)
      → ((s : Db) → Holds name t s → (s' : Db) × (stmt s ≡ (some tt, s')) × Holds name t' s')
      → Goes t t' (run stmt)
  run-Goes t t' stmt f s h =
      let (s', e, h') = f (tick s) (ticked t s h) in
      rw (run-eq s (h.healthy s.statements) stmt tt s' e) h'

  pub update-hit : {A : Type 0} (f : String → Option A) (a : A) → update f name a name ≡ some a
  unfolding update
  update-hit f a = let hit : str_eq name name ≡ true = (eq_iff name name).1 refl in rw hit

  index-hit :
      (index : String) (s : Db) → (with_index name index s).indexes name ≡ index ∷ s.indexes name
  index-hit index s = let hit : str_eq name name ≡ true = (eq_iff name name).1 refl in rw hit

  -- A relation is one of the tables of a schema: reading it gets that table, and writing it sets it.
  pub record Slot {Row : Type 0} (R : Relation Row) : Type 0 where
    pub get : Tables → Option (Table Row)
    pub set : Option (Table Row) → Tables → Tables
    pub reads : (s : Db) → R.read s name ≡ get (tables_of name s)
    pub written :
        (s : Db) (x : Table Row)
        → tables_of name (R.write name x s) ≡ set (some x) (tables_of name s)
    pub present : (t : Tables) → set (get t) t ≡ t
    pub same_fails : (s : Db) (x : Table Row) → (R.write name x s).fails ≡ s.fails
    pub same_schemas : (s : Db) (x : Table Row) → (R.write name x s).schemas ≡ s.schemas

  module _ {Row : Type 0} (R : Relation Row) (slot : Slot R) (t : Tables) where
    make-Holds :
        (s : Db) (o : Option (Table Row))
        → slot.get t ≡ o
        → Holds name t s
        → Holds name (slot.set (some (kept o)) t) (make R name o s)
    make-Holds s none e h = record {
      healthy = λ n. ap (λ (f : ℕ → Bool). f n) (slot.same_fails s empty) ∙ h.healthy n;
      exists = ap (any (str_eq name)) (slot.same_schemas s empty) ∙ h.exists;
      tables = slot.written s empty ∙ ap (slot.set (some empty)) h.tables;
    }
    make-Holds s (some x) e h = record {
      healthy = h.healthy;
      exists = h.exists;
      tables = h.tables ∙ (sym (slot.present t) ∙ ap (λ o. slot.set o t) e);
    }

    read-eq : (s : Db) → Holds name t s → R.read s name ≡ slot.get t
    read-eq s h = slot.reads s ∙ ap slot.get h.tables

    pub create-Goes :
        (refers : Db → Bool)
        → ((s : Db) → Holds name t s → refers s ≡ true)
        → Goes t (slot.set (some (kept (slot.get t))) t) (create_table R name refers)
    unfolding create_table
    create-Goes refers allowed =
        run-Goes t (slot.set (some (kept (slot.get t))) t)
          (λ s.
            if has_schema s name && refers s
            then (some tt, make R name (R.read s name) s)
            else (none, s))
          λ s h. (
            make R name (slot.get t) s,
            rw (h.exists, allowed s h, read-eq s h) refl,
            make-Holds s (slot.get t) refl h,
          )

  -- An index with a new name, on a table whose rows allow it.
  module _ {Row : Type 0} (R : Relation Row) (slot : Slot R) where
    pub index-Goes :
        (t : Tables) (unique : List Row → Bool) (index : String)
        → has_rows unique (slot.get t) ≡ true
        → any (str_eq index) t.indexes ≡ false
        → Goes t (record t { indexes = index ∷ t.indexes }) (add_index R name unique index)
    unfolding add_index
    index-Goes t unique index fits new =
        run-Goes t (record t { indexes = index ∷ t.indexes })
          (λ s.
            if has_rows unique (R.read s name) && not (any (str_eq index) (s.indexes name))
            then (some tt, with_index name index s)
            else (none, s))
          λ s h.
            let known : any (str_eq index) (s.indexes name) ≡ false =
              ap (λ (x : Tables). any (str_eq index) x.indexes) h.tables ∙ new in
            (
              with_index name index s,
              rw (read-eq R slot t s h, fits, known) refl,
              record {
                healthy = h.healthy;
                exists = h.exists;
                tables =
                    ap (λ xs. record (tables_of name s) { indexes = xs }) (index-hit index s)
                    ∙ ap (λ (x : Tables). record x { indexes = index ∷ x.indexes }) h.tables;
              },
            )

  abbrev pub users_slot : Slot users
  users_slot = record {
    get = λ t. t.users;
    set = λ o t. record t { users = o };
    reads = λ s. refl;
    written = λ s x. ap (λ o. record (tables_of name s) { users = o }) (update-hit s.users x);
    present = λ t. refl;
    same_fails = λ s x. refl;
    same_schemas = λ s x. refl;
  }

  abbrev pub projects_slot : Slot projects
  projects_slot = record {
    get = λ t. t.projects;
    set = λ o t. record t { projects = o };
    reads = λ s. refl;
    written = λ s x. ap (λ o. record (tables_of name s) { projects = o }) (update-hit s.projects x);
    present = λ t. refl;
    same_fails = λ s x. refl;
    same_schemas = λ s x. refl;
  }

  abbrev pub units_slot : Slot units
  units_slot = record {
    get = λ t. t.units;
    set = λ o t. record t { units = o };
    reads = λ s. refl;
    written = λ s x. ap (λ o. record (tables_of name s) { units = o }) (update-hit s.units x);
    present = λ t. refl;
    same_fails = λ s x. refl;
    same_schemas = λ s x. refl;
  }

  abbrev pub audit_logs_slot : Slot audit_logs
  audit_logs_slot = record {
    get = λ t. t.audit_logs;
    set = λ o t. record t { audit_logs = o };
    reads = λ s. refl;
    written =
        λ s x. ap (λ o. record (tables_of name s) { audit_logs = o }) (update-hit s.audit_logs x);
    present = λ t. refl;
    same_fails = λ s x. refl;
    same_schemas = λ s x. refl;
  }
