-- ===== src/Db/Respects.antt =====
-- Actions that keep to a preorder on states, whether they return or throw: one rule for each way to
-- build an action. An invariant is such a preorder too.
use real_estate_multi_tenant.Prelude.{
  ℕ, suc, filter, not, ◌≡◌, refl, [], ◌∷◌, ◌++◌, String, length, Bool, true, false, List, Option,
  none, some, if◌then◌else◌,
}
use real_estate_multi_tenant.Errors.{Error}
use real_estate_multi_tenant.Db.Rows.{Table, Db}
use real_estate_multi_tenant.Db.Exec.{
  Result, ok, err, M, pure, raise, lift, recover, continue, ◌>>=◌, attempt,
}
use real_estate_multi_tenant.Db.Statements.{
  Relation, run, select_from, insert_row, update_rows, delete_rows, set_rows, select_where,
  count_where, page_from, select_page, insert_into, update_where, delete_where,
}

-- The counter of statements and the search path belong to no table.
pub record Preorder (R : Db → Db → Type 0) : Type 0 where
  pub refl : (s : Db) → R s s
  pub trans : (s t u : Db) → R s t → R t u → R s u
  pub count : (s : Db) (n : ℕ) → R s (record s { statements = n })
  pub path : (s : Db) (name : String) → R s (record s { search_path = name })

pub record Respects (R : Db → Db → Type 0) {A : Type 0} (m : M A) : Type 0 where
  pub at : (s : Db) → R s (m s).1

module _ {R : Db → Db → Type 0} (P : Preorder R) {A : Type 0} where
  pub Respects-pure : (a : A) → Respects R (pure a)
  Respects-pure a = record { at = P.refl }

  pub Respects-raise : (e : Error) → Respects R (raise {A = A} e)
  Respects-raise e = record { at = P.refl }

  pub Respects-lift : (r : Result A) → Respects R (lift r)
  Respects-lift r = record { at = P.refl }

  pub Respects-if :
      (b : Bool) (m n : M A) → Respects R m → Respects R n → Respects R (if b then m else n)
  Respects-if true m n hm hn = hm
  Respects-if false m n hm hn = hn

  recover-R :
      (r : Result A) (h : Error → M A)
      → ((e : Error) → Respects R (h e))
      → (s : Db) → R s (recover r h s).1
  recover-R (ok a) h hh s = P.refl s
  recover-R (err e) h hh s = (hh e).at s

  pub Respects-attempt :
      (m : M A) (h : Error → M A)
      → Respects R m
      → ((e : Error) → Respects R (h e))
      → Respects R (attempt m h)
  Respects-attempt m h hm hh = record {
    at = λ s. P.trans s _ _ (hm.at s) (recover-R (m s).0 h hh (m s).1);
  }

  -- The same from one state, for a first part that keeps to the preorder from there.
  pub R-attempt :
      (s0 s : Db) (m : M A) (h : Error → M A)
      → R s0 (m s).1
      → ((e : Error) → Respects R (h e))
      → R s0 (attempt m h s).1
  R-attempt s0 s m h hm hh = P.trans s0 _ _ hm (recover-R (m s).0 h hh (m s).1)

  -- On either branch, with the test known.
  pub R-if-known :
      {s : Db} (b : Bool) (x y : A × Db)
      → (b ≡ true → R s x.1)
      → R s y.1
      → R s (if b then x else y).1
  R-if-known true x y h k = h refl
  R-if-known false x y h k = k

  R-if : {s : Db} (b : Bool) (x y : A × Db) → R s x.1 → R s y.1 → R s (if b then x else y).1
  R-if true x y h k = h
  R-if false x y h k = k

module _ {R : Db → Db → Type 0} (P : Preorder R) {A : Type 0} where
  pub Respects-run :
      (stmt : Db → Option A × Db) → ((s : Db) → R s (stmt s).1) → Respects R (run stmt)
  unfolding run
  Respects-run stmt h = record {
    at = λ s. R-if P (s.fails s.statements) _ _ (P.count s _) (P.trans s _ _ (P.count s _) (h _));
  }

module _ {R : Db → Db → Type 0} (P : Preorder R) {A B : Type 0} where
  continue-R :
      (r : Result A) (f : A → M B)
      → ((a : A) → Respects R (f a))
      → (s : Db) → R s (continue r f s).1
  continue-R (ok a) f hf s = (hf a).at s
  continue-R (err e) f hf s = P.refl s

  pub Respects-bind :
      (m : M A) (f : A → M B) → Respects R m → ((a : A) → Respects R (f a)) → Respects R (m >>= f)
  Respects-bind m f hm hf = record {
    at = λ s. P.trans s _ _ (hm.at s) (continue-R (m s).0 f hf (m s).1);
  }

  pub R-bind :
      (s0 s : Db) (m : M A) (f : A → M B)
      → R s0 (m s).1
      → ((a : A) → Respects R (f a))
      → R s0 ((m >>= f) s).1
  R-bind s0 s m f hm hf = P.trans s0 _ _ hm (continue-R (m s).0 f hf (m s).1)

module _ {R : Db → Db → Type 0} (P : Preorder R) {Row : Type 0} (T : Relation Row)
    (name : String) where
  pub Respects-select : (p : Row → Bool) → Respects R (select_where T name p)
  unfolding select_where
  Respects-select p = Respects-run P (λ s. (select_from T name p (T.read s name), s)) P.refl

  pub Respects-count : (p : Row → Bool) → Respects R (count_where T name p)
  unfolding count_where
  Respects-count p = Respects-bind P _ _ (Respects-select p) (λ rows. Respects-pure P (length rows))

  pub Respects-page :
      (p : Row → Bool) (page : List Row → Option (List Row))
      → Respects R (select_page T name p page)
  unfolding select_page
  Respects-page p page = Respects-run P (λ s. (page_from T name p page (T.read s name), s)) P.refl

-- A table may be written in one step only where the preorder allows it.
module _ {R : Db → Db → Type 0} (P : Preorder R) {Row : Type 0} (T : Relation Row)
    (name : String) where
  insert-R :
      (check : Db → Table Row → Row → Bool) (row : ℕ → ℕ → Row)
      → ((s : Db) (t : Table Row)
          → T.read s name ≡ some t
          → check s t (row t.next (s.time s.statements)) ≡ true
          → R s (
              T.write name
                (record {
                  rows = t.rows ++ row t.next (s.time s.statements) ∷ [];
                  next = suc t.next;
                })
                s))
      → ((s : Db) (t : Table Row)
          → T.read s name ≡ some t
          → R s (T.write name (record { rows = t.rows; next = suc t.next }) s))
      → (s : Db) (t : Option (Table Row)) → T.read s name ≡ t
      → R s (insert_row T name check row t s).1
  insert-R check row h k s none e = P.refl s
  insert-R check row h k s (some t) e = R-if-known P (check s t _) _ _ (h s t e) (k s t e)

  pub Respects-insert :
      (check : Db → Table Row → Row → Bool) (row : ℕ → ℕ → Row)
      → ((s : Db) (t : Table Row)
          → T.read s name ≡ some t
          → check s t (row t.next (s.time s.statements)) ≡ true
          → R s (
              T.write name
                (record {
                  rows = t.rows ++ row t.next (s.time s.statements) ∷ [];
                  next = suc t.next;
                })
                s))
      → ((s : Db) (t : Table Row)
          → T.read s name ≡ some t
          → R s (T.write name (record { rows = t.rows; next = suc t.next }) s))
      → Respects R (insert_into T name check row)
  unfolding insert_into
  Respects-insert check row h k =
      Respects-run P (λ s. insert_row T name check row (T.read s name) s)
        (λ s. insert-R check row h k s (T.read s name) refl)

  update-R :
      (p : Row → Bool) (check : List Row → Bool) (set : ℕ → Row → Row)
      → ((s : Db) (t : Table Row)
          → T.read s name ≡ some t
          → check (set_rows p (set (s.time s.statements)) t.rows) ≡ true
          → R s
              (T.write name (record t { rows = set_rows p (set (s.time s.statements)) t.rows }) s))
      → (s : Db) (t : Option (Table Row)) → T.read s name ≡ t
      → R s (update_rows T name p check set t s).1
  update-R p check set h s none e = P.refl s
  update-R p check set h s (some t) e = R-if-known P (check _) _ _ (h s t e) (P.refl s)

  pub Respects-update :
      (p : Row → Bool) (check : List Row → Bool) (set : ℕ → Row → Row)
      → ((s : Db) (t : Table Row)
          → T.read s name ≡ some t
          → check (set_rows p (set (s.time s.statements)) t.rows) ≡ true
          → R s
              (T.write name (record t { rows = set_rows p (set (s.time s.statements)) t.rows }) s))
      → Respects R (update_where T name p check set)
  unfolding update_where
  Respects-update p check set h =
      Respects-run P (λ s. update_rows T name p check set (T.read s name) s)
        (λ s. update-R p check set h s (T.read s name) refl)

  delete-R :
      (p : Row → Bool)
      → ((s : Db) (t : Table Row)
          → T.read s name ≡ some t
          → R s (T.write name (record t { rows = filter (λ r. not (p r)) t.rows }) s))
      → (s : Db) (t : Option (Table Row)) → T.read s name ≡ t
      → R s (delete_rows T name p t s).1
  delete-R p h s none e = P.refl s
  delete-R p h s (some t) e = h s t e

  pub Respects-delete :
      (p : Row → Bool)
      → ((s : Db) (t : Table Row)
          → T.read s name ≡ some t
          → R s (T.write name (record t { rows = filter (λ r. not (p r)) t.rows }) s))
      → Respects R (delete_where T name p)
  unfolding delete_where
  Respects-delete p h =
      Respects-run P (λ s. delete_rows T name p (T.read s name) s)
        (λ s. delete-R p h s (T.read s name) refl)

pub ruleset respects_rules = (
  Respects-pure, Respects-raise, Respects-lift, Respects-if, Respects-attempt, Respects-bind,
  Respects-select, Respects-count, Respects-page,
)
