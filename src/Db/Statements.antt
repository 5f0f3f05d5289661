-- ===== src/Db/Statements.antt =====
-- The SQL statements that the repositories are made of.
use real_estate_multi_tenant.Prelude.{
  ℕ, suc, String, Bool, Option, none, some, List, [], ◌∷◌, ◌++◌, map, not, length, filter,
  if◌then◌else◌,
}
use real_estate_multi_tenant.Errors.{query_failed}
use real_estate_multi_tenant.Db.Rows.{
  UnitRow, ProjectRow, UserRow, TenantRow, AuditRow, Table, Db, update,
}
use real_estate_multi_tenant.Db.Exec.{Result, ok, err, M, pure, ◌>>=◌}

-- One table in every schema: how to read and write it.
pub record Relation (Row : Type 0) : Type 0 where
  pub read : Db → String → Option (Table Row)
  pub write : String → Table Row → Db → Db

-- The table of the public schema, whatever the name.
abbrev pub tenants : Relation TenantRow
tenants = record { read = λ s name. some s.tenants; write = λ name t s. record s { tenants = t } }

abbrev pub units : Relation UnitRow
units = record {
  read = λ s. s.units;
  write = λ name t s. record s { units = update s.units name t };
}

abbrev pub projects : Relation ProjectRow
projects = record {
  read = λ s. s.projects;
  write = λ name t s. record s { projects = update s.projects name t };
}

abbrev pub users : Relation UserRow
users = record {
  read = λ s. s.users;
  write = λ name t s. record s { users = update s.users name t };
}

abbrev pub audit_logs : Relation AuditRow
audit_logs = record {
  read = λ s. s.audit_logs;
  write = λ name t s. record s { audit_logs = update s.audit_logs name t };
}

-- The driver's answer: no value is an error of the database.
abbrev answer : {A : Type 0} → Option A → String → Result A
answer none why = err (query_failed why)
answer (some a) why = ok a

-- `sequelize.query`: each statement has a number. Where the environment lets it fail it has no
-- effect.
unfoldable pub run : {A : Type 0} → (Db → Option A × Db) → M A
run stmt s =
    let s' = record s { statements = suc s.statements } in
    if s.fails s.statements
    then (err (query_failed (s.reason s.statements)), s')
    else (let (o, s'') = stmt s' in (answer o (s.reason s.statements), s''))

-- The rows after SET where `p` holds.
abbrev pub set_rows {ℓ} : {Row : Type ℓ} → (Row → Bool) → (Row → Row) → List Row → List Row
set_rows p f rows = map (λ r. if p r then f r else r) rows

module _ {Row : Type 0} (R : Relation Row) (name : String) where
  abbrev pub select_from : (Row → Bool) → Option (Table Row) → Option (List Row)
  select_from p none = none
  select_from p (some t) = some (filter p t.rows)

  -- SELECT * FROM "name".table WHERE p
  unfoldable pub select_where : (Row → Bool) → M (List Row)
  unfolding run
  select_where p = run λ s. (select_from p (R.read s name), s)

  -- SELECT COUNT(*) FROM "name".table WHERE p
  unfoldable pub count_where : (Row → Bool) → M ℕ
  unfolding select_where
  count_where p = do rows ← select_where p; pure (length rows)

  abbrev pub page_from :
      (Row → Bool) → (List Row → Option (List Row)) → Option (Table Row) → Option (List Row)
  page_from p page none = none
  page_from p page (some t) = page (filter p t.rows)

  -- SELECT * FROM "name".table WHERE p ORDER BY … LIMIT … OFFSET …: `page` sorts and cuts, or
  -- refuses a negative limit or offset.
  unfoldable pub select_page : (Row → Bool) → (List Row → Option (List Row)) → M (List Row)
  unfolding run
  select_page p page = run λ s. (page_from p page (R.read s name), s)

  abbrev pub insert_row :
      (Db → Table Row → Row → Bool) → (ℕ → ℕ → Row) → Option (Table Row) → Db → Option Row × Db
  insert_row check row none s = (none, s)
  insert_row check row (some t) s =
      let r = row t.next (s.time s.statements) in
      if check s t r
      then (some r, R.write name (record { rows = t.rows ++ r ∷ []; next = suc t.next }) s)
      else (none, R.write name (record { rows = t.rows; next = suc t.next }) s)

  -- INSERT INTO "name".table … RETURNING *: the row is made from its id and the time, and refused
  -- by a constraint that `check` states. A refused row has used up its id.
  unfoldable pub insert_into : (Db → Table Row → Row → Bool) → (ℕ → ℕ → Row) → M Row
  unfolding run
  insert_into check row = run λ s. insert_row check row (R.read s name) s

  abbrev pub update_rows :
      (Row → Bool)
      → (List Row → Bool)
      → (ℕ → Row → Row)
      → Option (Table Row)
      → Db
      → Option (List Row) × Db
  update_rows p check set none s = (none, s)
  update_rows p check set (some t) s =
      let f = set (s.time s.statements) in
      let rows' = set_rows p f t.rows in
      if check rows'
      then (some (map f (filter p t.rows)), R.write name (record t { rows = rows' }) s)
      else (none, s)

  -- UPDATE "name".table SET … WHERE p RETURNING *: `check` states the constraints on the rows that
  -- result.
  unfoldable pub update_where : (Row → Bool) → (List Row → Bool) → (ℕ → Row → Row) → M (List Row)
  unfolding run
  update_where p check set = run λ s. update_rows p check set (R.read s name) s

  abbrev pub delete_rows : (Row → Bool) → Option (Table Row) → Db → Option (Unit {0}) × Db
  delete_rows p none s = (none, s)
  delete_rows p (some t) s =
      (some tt, R.write name (record t { rows = filter (λ r. not (p r)) t.rows }) s)

  -- DELETE FROM "name".table WHERE p
  unfoldable pub delete_where : (Row → Bool) → M (Unit {0})
  unfolding run
  delete_where p = run λ s. delete_rows p (R.read s name) s
