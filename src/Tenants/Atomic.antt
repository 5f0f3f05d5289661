-- ===== src/Tenants/Atomic.antt =====
-- `createTenant` as a whole: the transaction and what stands behind it.
use real_estate_multi_tenant.Prelude.{
  ℕ, ◌≡◌, ◌≤◌, refl, sym, ap, ◌∙◌, String, true, List, [], ◌∷◌, Option, some, ◌⊎◌, inl, inr,
  Bool-cases, filter, head?, ◌==◌, arith,
}
use real_estate_multi_tenant.Errors.{Error}
use real_estate_multi_tenant.Db.{TenantRow, Table, Db, Result, ok, err, lift, ◌>>=◌, select_where}
use real_estate_multi_tenant.Db.Healthy.{tick}
use real_estate_multi_tenant.Db.Transaction.{begin, commit, rollback}
use real_estate_multi_tenant.Db.Ends.{Ends, Ends-bind, Ends-map, Ends-attempt}
use real_estate_multi_tenant.Schemas.Migrations.{Migration}
use real_estate_multi_tenant.Tenants.Dto.{CreateTenantDto, tenant_response}
use real_estate_multi_tenant.Schemas.Manager.{generate_schema_name}
use real_estate_multi_tenant.Tenants.Repository
use real_estate_multi_tenant.Tenants.Repository.{has_id}
use real_estate_multi_tenant.Tenants.Service.{
  create_in_transaction, abort, publish, finish, conclude, create_tenant,
}
use real_estate_multi_tenant.Tenants.Sound.{Sound, filter-fresh}
use real_estate_multi_tenant.Tenants.Creation.{Created, create_in_transaction-Ends}
use real_estate_multi_tenant.Tenants.Registry.{SameTenants}

-- The rows of the registry are as they were; its sequence may have gone on.
pub record Kept (s s' : Db) : Type 0 where
  pub rows : s'.tenants.rows ≡ s.tenants.rows
  pub next : s.tenants.next ≤ s'.tenants.next

-- The tenant that is returned is the new row.
abbrev pub Returned : CreateTenantDto → Db → TenantRow → Db → Type 0
Returned dto s t s' = (c : Created dto s t.id s') × (c.row ≡ t)

-- A creation that throws has left the rows alone, or its tenant is committed.
abbrev pub Thrown : CreateTenantDto → Db → Db → Type 0
Thrown dto s s' = Kept s s' ⊎ ((id : ℕ) × Created dto s id s')

module _ (dto : CreateTenantDto) (s : Db) where
  Created-same :
      (id : ℕ) (s1 s2 : Db) → Created dto s id s1 → SameTenants s1 s2 → Created dto s id s2
  Created-same id s1 s2 c e = record {
    row = c.row;
    appended = e ∙ c.appended;
    has_id = c.has_id;
    new_id = c.new_id;
    schema = c.schema;
    name = c.name;
    active = c.active;
  }

  Created-Returned : (id : ℕ) (s1 : Db) (c : Created dto s id s1) → Returned dto s c.row s1
  Created-Returned id s1 c = (
    record {
      row = c.row;
      appended = c.appended;
      has_id = refl;
      new_id = c.has_id ∙ c.new_id;
      schema = c.schema ∙ ap generate_schema_name (sym c.has_id);
      name = c.name;
      active = c.active;
    },
    refl,
  )

  -- The row of a new tenant is the one that its id finds.
  pub Created-found :
      (id : ℕ) (s1 : Db) (c : Created dto s id s1)
      → Sound s.tenants.next s.tenants.rows
      → head? (filter (has_id id) s1.tenants.rows) ≡ some c.row
  unfolding has_id filter
  Created-found id s1 c v =
      let hit : (c.row.id == id) ≡ true = ground (arith, c.has_id) in
      ap (λ (T : Table TenantRow). head? (filter (has_id id) T.rows)) c.appended
      ∙ (ap head?
            (filter-fresh s.tenants.next id s.tenants.rows (c.row ∷ []) v (omega (arith, c.new_id)))
          ∙ rw hit)

commit-Ends :
    (before s : Db)
    → Ends
        (λ done s'. s'.tenants ≡ s.tenants)
        (λ s'. (s'.tenants.rows ≡ before.tenants.rows) × (s'.tenants.next ≡ s.tenants.next))
        (commit before s)
unfolding commit
commit-Ends before s = elim (Bool-cases (s.fails s.statements)) [
  | inl down ↦ rw down (refl, refl)
  | inr up ↦ rw up refl
]

pub find-Ends :
    (id : ℕ) (s : Db)
    → Ends
        (λ t s'. (s'.tenants ≡ s.tenants) × (t ≡ head? (filter (has_id id) s.tenants.rows)))
        (SameTenants s)
        (Repository.find_by_id id s)
unfolding Repository.find_by_id select_where
find-Ends id s = elim (Bool-cases (s.fails s.statements)) [
  | inl down ↦ rw down refl
  | inr up ↦ rw up (refl, refl)
]

module _ (pending : String → Db → Result (List Migration)) (hash : ℕ → String → String)
    (dto : CreateTenantDto) (s before : Db) (same : before.tenants ≡ s.tenants)
    (v : Sound s.tenants.next s.tenants.rows) where
  published :
      (row : TenantRow) (s1 : Db) (t : Option TenantRow)
      → t ≡ some row
      → Returned dto s row s1
      → Ends (Returned dto s) (Thrown dto s) (lift (tenant_response t) s1)
  unfolding tenant_response
  published row s1 t e c = rw e c

  find_response :
      (id : ℕ) (s2 : Db)
      → Created dto s id s2
      → Ends
          (Returned dto s)
          (Thrown dto s)
          ((Repository.find_by_id id >>= (λ created. lift (tenant_response created))) s2)
  unfolding Created-same
  find_response id s2 c =
      Ends-bind
        (λ (t : Option TenantRow) (s3 : Db).
          (s3.tenants ≡ s2.tenants) × (t ≡ head? (filter (has_id id) s2.tenants.rows)))
        (Returned dto s) (Thrown dto s) (Repository.find_by_id id) _ s2
        (Ends-map {A = Option TenantRow} _ _ (SameTenants s2) (Thrown dto s)
          (Repository.find_by_id id s2) (find-Ends id s2) (λ t s3 h. h)
          (λ s3 e. inr (id, Created-same dto s id s2 s3 c e)))
        λ t s3 (e, found).
          let c3 = Created-same dto s id s2 s3 c e in
          published c3.row s3 t (found ∙ Created-found dto s id s2 c v)
            (Created-Returned dto s id s3 c3)

  finish-Ends :
      (id : ℕ) (s1 : Db)
      → Created dto s id s1
      → Ends (Returned dto s) (Thrown dto s) (finish pending hash before id s1)
  finish-Ends id s1 c =
      Ends-attempt (Returned dto s) (Thrown dto s) (Thrown dto s) (publish pending hash before id) _
        s1
        (Ends-bind (λ done s2. Created dto s id s2) (Returned dto s) (Thrown dto s) (commit before)
          (λ _. Repository.find_by_id id >>= (λ created. lift (tenant_response created))) s1
          (Ends-map _ (λ done s2. Created dto s id s2) _ (Thrown dto s) (commit before s1)
            (commit-Ends before s1) (λ done s2 e. Created-same dto s id s1 s2 c e)
            (λ s2 (rows, next).
              inl (record { rows = rw (rows, same); next = rw (next, c.appended) (omega arith) })))
          λ _ s2 c2. find_response id s2 c2)
        (λ e s2 h. h)

  abort-Ends :
      (e : Error) (s1 : Db)
      → s.tenants.next ≤ s1.tenants.next
      → Ends (Returned dto s) (Thrown dto s) (abort pending hash before e s1)
  unfolding rollback
  abort-Ends e s1 le = elim (Bool-cases (s1.fails s1.statements)) [
    | inl down ↦ rw down (inl (record { rows = rw same; next = le }))
    | inr up ↦ rw up (inl (record { rows = rw same; next = le }))
  ]

  conclude-Ends :
      (r : Result ℕ) (s1 : Db)
      → Ends (Created dto s) (λ s'. s.tenants.next ≤ s'.tenants.next) (r, s1)
      → Ends (Returned dto s) (Thrown dto s) (conclude pending hash before r s1)
  conclude-Ends (ok id) s1 c = finish-Ends id s1 c
  conclude-Ends (err e) s1 le = abort-Ends e s1 le

ticked :
    (dto : CreateTenantDto) (s : Db) (id : ℕ) (s' : Db)
    → Created dto (tick s) id s'
    → Created dto s id s'
ticked dto s id s' c = record {
  row = c.row;
  appended = c.appended;
  has_id = c.has_id;
  new_id = c.new_id;
  schema = c.schema;
  name = c.name;
  active = c.active;
}

-- From a sound registry, a creation that returns has added the tenant that it returns, active, with the
-- name of the request and a schema named after its id; one that throws, at whichever statement, has
-- left the rows of the registry alone, or its tenant is committed.
pub create_tenant-Ends :
    (pending : String → Db → Result (List Migration)) (hash : ℕ → String → String)
    (dto : CreateTenantDto) (s : Db)
    → Sound s.tenants.next s.tenants.rows
    → Ends (Returned dto s) (Thrown dto s) (create_tenant pending hash dto s)
unfolding create_tenant begin
create_tenant-Ends pending hash dto s v =
    let m = create_in_transaction pending hash dto (tick s) in
    elim (Bool-cases (s.fails s.statements)) [
      | inl down ↦ rw down (inl (record { rows = refl; next = omega arith }))
      | inr up ↦ rw up (
          conclude-Ends pending hash dto s (tick s) refl v m.0 m.1 (
            Ends-map _ (Created dto s) _ (λ s'. s.tenants.next ≤ s'.tenants.next) m
              (create_in_transaction-Ends pending hash dto (tick s) v) (ticked dto s)
              (λ s' le. le)))
    ]
