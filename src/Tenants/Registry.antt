-- ===== src/Tenants/Registry.antt =====
-- What the statements on the registry leave: an insert appends a row, an update sets rows, and what
-- does not write it leaves it alone.
use real_estate_multi_tenant.Prelude.{
  ℕ, suc, ◌≡◌, ◌≤◌, refl, ◌∙◌, List, [], ◌∷◌, ◌++◌, inl, inr, Bool-cases, arith,
}
use real_estate_multi_tenant.Db.{TenantRow, Table, Db, set_rows, insert_into, update_where}
use real_estate_multi_tenant.Db.Respects.{Preorder}
use real_estate_multi_tenant.Db.Healthy.{tick}
use real_estate_multi_tenant.Db.Ends.{Ends}
use real_estate_multi_tenant.Schemas.Actions.{SchemaWrites}
use real_estate_multi_tenant.Tenants.Repository
use real_estate_multi_tenant.Tenants.Repository.{
  TenantData, Change, schema, has_id, new_row, set_change, still_accepts,
}

-- The registry is as it was.
abbrev pub SameTenants : Db → Db → Type 0
SameTenants s s' = s'.tenants ≡ s.tenants

pub SameTenants-preorder : Preorder SameTenants
SameTenants-preorder = record {
  refl = λ s. refl;
  trans = λ s t u h k. k ∙ h;
  count = λ s n. refl;
  path = λ s name. refl;
}

pub making : SchemaWrites SameTenants
making = record {
  making = λ name s. refl;
  indexing = λ name index s. refl;
  add_users = λ name s e. refl;
  add_projects = λ name s e. refl;
  add_units = λ name s e. refl;
  add_audit_logs = λ name s e. refl;
}

-- A row of the registry that an action appends.
abbrev pub Appended : TenantData → Table TenantRow → TenantRow → Db → Type 0
Appended input X row s' =
    (s'.tenants ≡ record { rows = X.rows ++ row ∷ []; next = suc X.next })
    × (row ≡ new_row input row.id row.created_at)
    × (row.id ≡ X.next)

pub insert-Appended :
    (input : TenantData) (s : Db)
    → Ends
        (Appended input s.tenants)
        (λ s'. s.tenants.next ≤ s'.tenants.next)
        (Repository.create input s)
unfolding Repository.create insert_into
insert-Appended input s =
    let row = new_row input s.tenants.next (s.time (suc s.statements)) in
    elim (Bool-cases (s.fails s.statements)) [
      | inl down ↦ rw down (omega arith)
      | inr up ↦ rw up (elim (Bool-cases (Repository.accepts (tick s) s.tenants row)) [
        | inl fits ↦ rw fits (refl, refl, refl)
        | inr taken ↦ rw taken (omega arith)
      ])
    ]

-- An update of the registry that returns has set the rows, at some time.
abbrev pub Set : ℕ → Change → Db → List TenantRow → Db → Type 0
Set id c s rows s' =
    (now : ℕ) × (s'.tenants
      ≡ record (s.tenants) { rows = set_rows (has_id id) (set_change c now) s.tenants.rows })

pub update-Set :
    (id : ℕ) (c : Change) (s : Db) → Ends (Set id c s) (SameTenants s) (Repository.update id c s)
unfolding Repository.update update_where
update-Set id c s =
    let now = s.time (suc s.statements) in
    elim (Bool-cases (s.fails s.statements)) [
      | inl down ↦ rw down refl
      | inr up ↦
          rw up
            (elim (Bool-cases
              (still_accepts (set_rows (has_id id) (set_change c now) s.tenants.rows))) [
                | inl fits ↦ rw fits (now, refl)
                | inr taken ↦ rw taken refl
              ])
    ]
