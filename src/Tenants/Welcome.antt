-- ===== src/Tenants/Welcome.antt =====
-- `createTenant` as a whole where no statement fails.
use mathlib.Core.Path.{subst}
use real_estate_multi_tenant.Prelude.{
  leb, text_length, arith, ℕ, suc, ◌≡◌, ◌≤◌, refl, ap, ◌∙◌, sym, String, true, List, [], ◌∷◌, ◌++◌,
  Option, none, filter, head?,
}
use real_estate_multi_tenant.Db.{
  TenantRow, Table, Db, Result, ok, err, M, pure, ◌>>◌, tenants, set_rows,
}
use real_estate_multi_tenant.Db.Healthy.{Healthy, tick, select-eq}
use real_estate_multi_tenant.Db.Ends.{Ends, Ends-bind, Ends-map, Ends-both, Ends-attempt}
use real_estate_multi_tenant.Db.Transaction.{begin, commit}
use real_estate_multi_tenant.Schemas.Slots.{Fails, tables_of, bare}
use real_estate_multi_tenant.Schemas.Manager.{generate_schema_name, create_schema}
use real_estate_multi_tenant.Schemas.Migrations.{Migration, run_tenant_migration}
use real_estate_multi_tenant.Schemas.Complete.{in_order}
use real_estate_multi_tenant.Tenants.Dto.{CreateTenantDto, get_admin_data, tenant_response}
use real_estate_multi_tenant.Tenants.Repository
use real_estate_multi_tenant.Tenants.Repository.{
  schema, has_id, is_subscription, fits_lengths, still_accepts, new_row, set_change,
}
use real_estate_multi_tenant.Tenants.Service.{
  tenant_data, temp_schema_name, refuse_taken, create_admin_user, create_in_transaction, publish,
  conclude, create_tenant,
}
use real_estate_multi_tenant.Tenants.Sound.{Sound}
use real_estate_multi_tenant.Tenants.Creation.{Created, set-append, create_in_transaction-Ends}
use real_estate_multi_tenant.Tenants.Atomic.{Returned, Thrown, Created-found, create_tenant-Ends}
use real_estate_multi_tenant.Tenants.Ready.{At, find-At, insert-At, update-At}
use real_estate_multi_tenant.Tenants.Fresh.{temp-Free, still_accepts-append}
use real_estate_multi_tenant.Tenants.Onboarding.{HasAdmin, ShortAdmin, set_up-Ends}

-- What is inserted of the tenant fits the columns, under a name of its schema.
pub record ShortTenant (dto : CreateTenantDto) (schema_name : String) : Type 0 where
  pub name : text_length dto.name ≤ 255
  pub contact : text_length dto.contact ≤ 255
  pub schema : text_length schema_name ≤ 100

short-row :
    (dto : CreateTenantDto) (schema_name : String) (row : TenantRow)
    → ShortTenant dto schema_name
    → row.name ≡ dto.name
    → row.contact ≡ dto.contact
    → row.schema_name ≡ schema_name
    → fits_lengths row ≡ true
unfolding fits_lengths
short-row dto schema_name row short en ec es =
    let name : leb (text_length dto.name) 255 ≡ true = ground (arith, short.name) in
    let contact : leb (text_length dto.contact) 255 ≡ true = ground (arith, short.contact) in
    let schema : leb (text_length schema_name) 100 ≡ true = ground (arith, short.schema) in
    rw (en, ec, es, name, contact, schema) refl

module _ (pending : String → Db → Result (List Migration)) (hash : ℕ → String → String)
    (reports : (name : String) (s : Db)
      → Healthy s
      → tables_of name s ≡ bare
      → pending name s ≡ ok in_order)
    (dto : CreateTenantDto) (short : ShortAdmin hash dto) where
  -- The transaction may be committed: nothing fails, and the tenant has its Admin.
  abbrev Staffed : ℕ → Db → Type 0
  Staffed id s = Healthy s × HasAdmin hash dto id s

  refuse-At :
      (name : String) (X : Table TenantRow) (t : Option TenantRow) (s : Db)
      → t ≡ none
      → At name X s
      → Ends (λ done s'. At name X s') Fails (refuse_taken t s)
  refuse-At name X t s e at = rw e at

  -- What stands behind the insert.
  named-Ends :
      (X : Table TenantRow) (id now : ℕ) (temp : String) (s : Db)
      → Sound X.next X.rows
      → still_accepts X.rows ≡ true
      → is_subscription dto.subscription_type ≡ true
      → ShortTenant dto (generate_schema_name X.next)
      → id ≡ X.next
      → At
          (generate_schema_name id)
          (record {
            rows = X.rows ++ new_row (tenant_data dto temp) X.next now ∷ [];
            next = suc X.next;
          })
          s
      → Ends Staffed Fails (
          (do
            Repository.update id (schema (generate_schema_name id))
            create_schema (generate_schema_name id)
            run_tenant_migration pending (generate_schema_name id)
            create_admin_user pending hash (generate_schema_name id) (get_admin_data dto id)
            pure id)
            s)
  named-Ends X id now temp s v h known fits e at =
      let name = generate_schema_name id in
      let c = schema name in
      let row = new_row (tenant_data dto temp) X.next now in
      let rest : M ℕ = do
        create_schema name
        run_tenant_migration pending name
        create_admin_user pending hash name (get_admin_data dto id)
        pure id
      in Ends-bind _ Staffed Fails (Repository.update id c) (λ rows. rest) s
        (update-At name _ s at id c (λ later.
          ap (λ i. still_accepts (set_rows (has_id i) (set_change c later) (X.rows ++ row ∷ []))) e
          ∙ (ap still_accepts (set-append X.next (set_change c later) X.rows row v refl)
              ∙ still_accepts-append X.next X.rows (set_change c later row) v h
                  (ap generate_schema_name e) known
                  (short-row dto (generate_schema_name X.next) (set_change c later row) fits refl
                    refl (ap generate_schema_name e)))))
        λ rows s1 (later, at1).
          Ends-map (λ (a : ℕ) s'. (a ≡ id) × Healthy s' × HasAdmin hash dto id s') Staffed Fails
            Fails (rest s1) (set_up-Ends pending hash reports dto short id _ s1 at1)
            (λ a s' (same, alive, admin).
              (alive, subst (λ i. HasAdmin hash dto i s') (sym same) admin))
            (λ s' bad. bad)

  transaction-Ends :
      (s : Db)
      → Healthy s
      → Sound s.tenants.next s.tenants.rows
      → still_accepts s.tenants.rows ≡ true
      → is_subscription dto.subscription_type ≡ true
      → ShortTenant dto (temp_schema_name dto.name (s.time s.statements))
      → ShortTenant dto (generate_schema_name s.tenants.next)
      → tables_of (generate_schema_name s.tenants.next) s ≡ bare
      → Ends Staffed Fails (create_in_transaction pending hash dto s)
  unfolding create_in_transaction
  transaction-Ends s alive v h known fits_temp fits clear =
      let X = s.tenants in
      let name = generate_schema_name X.next in
      let temp = temp_schema_name dto.name (s.time s.statements) in
      let free = temp-Free X.next X.rows dto.name (s.time s.statements) v in
      Ends-bind (λ t s'. (t ≡ none) × At name X s') Staffed Fails
        (Repository.find_by_schema_name temp) _ s
        (find-At name X s (record { healthy = alive; registry = refl; clear = clear }) temp free)
        λ t s1 (missing, at1).
          Ends-bind (λ done s'. At name X s') Staffed Fails (refuse_taken t) _ s1
            (refuse-At name X t s1 missing at1)
            λ _ s2 at2.
              Ends-bind _ Staffed Fails (Repository.create (tenant_data dto temp)) _ s2
                (insert-At name X s2 at2 (tenant_data dto temp) free known (λ id now.
                  short-row dto temp (new_row (tenant_data dto temp) id now) fits_temp refl refl
                    refl))
                λ row s3 (now, made, at3).
                  let same : row.id ≡ X.next = ap (λ (r : TenantRow). r.id) made in
                  named-Ends X row.id now temp s3 v h known fits same (
                    subst
                      (λ i.
                        At (generate_schema_name i)
                          (record {
                            rows = X.rows ++ new_row (tenant_data dto temp) X.next now ∷ [];
                            next = suc X.next;
                          })
                          s3)
                      (sym same) at3)

  commit-eq : (before s : Db) → Healthy s → commit before s ≡ (ok tt, tick s)
  unfolding commit
  commit-eq before s alive = rw (alive s.statements) refl

  find-eq :
      (id : ℕ) (s : Db)
      → Healthy s
      → Repository.find_by_id id s ≡ (ok (head? (filter (has_id id) s.tenants.rows)), tick s)
  unfolding Repository.find_by_id
  find-eq id s alive =
      rw (select-eq tenants "public" s s.tenants (alive s.statements) refl (has_id id)) refl

  publish-Ends :
      (s before : Db) (id : ℕ) (s1 : Db)
      → Sound s.tenants.next s.tenants.rows
      → Created dto s id s1
      → Staffed id s1
      → Ends (λ t s'. HasAdmin hash dto t.id s') Fails (publish pending hash before id s1)
  unfolding tenant_response
  publish-Ends s before id s1 v c (alive, admin) =
      let again : HasAdmin hash dto c.row.id (tick (tick s1)) =
        subst (λ i. HasAdmin hash dto i (tick (tick s1))) (sym c.has_id)
          (record {
            row = admin.row;
            one_user = admin.one_user;
            tenant_id = admin.tenant_id;
            name = admin.name;
            email = admin.email;
            role = admin.role;
            active = admin.active;
            draw = admin.draw;
            hashed = admin.hashed;
          }) in
      rw (commit-eq before s1 alive, find-eq id (tick s1) alive, Created-found dto s id s1 c v)
        again

  conclude-Ends :
      (s before : Db) (r : Result ℕ) (s1 : Db)
      → Sound s.tenants.next s.tenants.rows
      → Ends
          (λ id s'. Staffed id s' × Created dto s id s')
          (λ s'. Fails s' × (s.tenants.next ≤ s'.tenants.next))
          (r, s1)
      → Ends (λ t s'. HasAdmin hash dto t.id s') Fails (conclude pending hash before r s1)
  conclude-Ends s before (ok id) s1 v (staffed, c) =
      Ends-attempt (λ (t : TenantRow) s'. HasAdmin hash dto t.id s') Fails Fails
        (publish pending hash before id) _ s1 (publish-Ends s before id s1 v c staffed)
        (λ e s' bad. bad)
  conclude-Ends s before (err e) s1 v (bad, le) = absurd bad

  create_tenant-Staffed :
      (s : Db)
      → Healthy s
      → Sound s.tenants.next s.tenants.rows
      → still_accepts s.tenants.rows ≡ true
      → is_subscription dto.subscription_type ≡ true
      → ShortTenant dto (temp_schema_name dto.name (s.time (suc s.statements)))
      → ShortTenant dto (generate_schema_name s.tenants.next)
      → tables_of (generate_schema_name s.tenants.next) s ≡ bare
      → Ends (λ t s'. HasAdmin hash dto t.id s') Fails (create_tenant pending hash dto s)
  unfolding create_tenant begin
  create_tenant-Staffed s alive v h known fits_temp fits clear =
      let m = create_in_transaction pending hash dto (tick s) in
      rw (alive s.statements) (
        conclude-Ends (tick s) (tick s) m.0 m.1 v (
          Ends-both Staffed (Created dto (tick s)) Fails (λ s'. s.tenants.next ≤ s'.tenants.next) m
            (transaction-Ends (tick s) alive v h known fits_temp fits clear)
            (create_in_transaction-Ends pending hash dto (tick s) v)))

  -- If no statement fails, umzug reports all four migrations as pending for a schema without tables, the
  -- registry is sound and meets its constraints, the subscription is a known one, the texts of the
  -- request, the hash and both names of the schema fit their columns and the schema of the next id has no
  -- tables, then createTenant returns: the new tenant is in the registry, active, with the name of the
  -- request and the schema of its id, and the only user of that schema is the Admin of the request,
  -- active, with a hash of the password.
  pub create_tenant-HasAdmin :
      (s : Db)
      → Healthy s
      → Sound s.tenants.next s.tenants.rows
      → still_accepts s.tenants.rows ≡ true
      → is_subscription dto.subscription_type ≡ true
      → ShortTenant dto (temp_schema_name dto.name (s.time (suc s.statements)))
      → ShortTenant dto (generate_schema_name s.tenants.next)
      → tables_of (generate_schema_name s.tenants.next) s ≡ bare
      → Ends
          (λ t s'. HasAdmin hash dto t.id s' × Returned dto s t s')
          Fails
          (create_tenant pending hash dto s)
  create_tenant-HasAdmin s alive v h known fits_temp fits clear =
      let m = create_tenant pending hash dto s in
      Ends-map _ (λ t s'. HasAdmin hash dto t.id s' × Returned dto s t s')
        (λ s'. Fails s' × Thrown dto s s') Fails m
        (Ends-both _ _ Fails (Thrown dto s) m
          (create_tenant-Staffed s alive v h known fits_temp fits clear)
          (create_tenant-Ends pending hash dto s v))
        (λ t s' both. both) (λ s' (bad, thrown). bad)
