-- ===== src/Db/Healthy.antt =====
-- What the statements do where the driver answers and the table exists.
use real_estate_multi_tenant.Prelude.{
  ℕ, suc, ◌≡◌, String, Bool, true, false, List, [], ◌∷◌, ◌++◌, Option, some, map, filter,
}
use real_estate_multi_tenant.Db.Rows.{Table, Db}
use real_estate_multi_tenant.Db.Exec.{ok}
use real_estate_multi_tenant.Db.Statements.{
  Relation, run, set_rows, select_where, select_page, insert_into, update_where,
}

-- The state in which a statement runs.
abbrev pub tick : Db → Db
tick s = record s { statements = suc s.statements }

-- No statement fails.
abbrev pub Healthy : Db → Type 0
Healthy s = (n : ℕ) → s.fails n ≡ false

module _ {A : Type 0} (s : Db) (up : s.fails s.statements ≡ false) where
  pub run-eq :
      (stmt : Db → Option A × Db) (a : A) (s' : Db)
      → stmt (tick s) ≡ (some a, s')
      → run stmt s ≡ (ok a, s')
  unfolding run
  run-eq stmt a s' e = rw (up, e)

module _ {Row : Type 0} (R : Relation Row) (name : String) (s : Db) (t : Table Row)
    (up : s.fails s.statements ≡ false) (has : R.read (tick s) name ≡ some t) where
  pub select-eq : (p : Row → Bool) → select_where R name p s ≡ (ok (filter p t.rows), tick s)
  unfolding select_where
  select-eq p = rw (up, has)

  pub page-eq :
      (p : Row → Bool) (page : List Row → Option (List Row)) (rows : List Row)
      → page (filter p t.rows) ≡ some rows
      → select_page R name p page s ≡ (ok rows, tick s)
  unfolding select_page
  page-eq p page rows e = rw (up, has, e)

  pub insert-eq :
      (check : Db → Table Row → Row → Bool) (row : ℕ → ℕ → Row)
      → check (tick s) t (row t.next (s.time (suc s.statements))) ≡ true
      → insert_into R name check row s ≡ (
        ok (row t.next (s.time (suc s.statements))),
        R.write name
            (record {
              rows = t.rows ++ row t.next (s.time (suc s.statements)) ∷ [];
              next = suc t.next;
            })
            (tick s),
      )
  unfolding insert_into
  insert-eq check row c = rw (up, has, c)

  pub update-eq :
      (p : Row → Bool) (check : List Row → Bool) (set : ℕ → Row → Row)
      → check (set_rows p (set (s.time (suc s.statements))) t.rows) ≡ true
      → update_where R name p check set s ≡ (
        ok (map (set (s.time (suc s.statements))) (filter p t.rows)),
        R.write name
            (record t { rows = set_rows p (set (s.time (suc s.statements))) t.rows })
            (tick s),
      )
  unfolding update_where
  update-eq p check set c = rw (up, has, c)
