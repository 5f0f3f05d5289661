-- ===== src/Tenants/Creation.antt =====
-- The transaction of `createTenant`: what it leaves where it is committed, and that it leaves no row
-- where it is not.
use mathlib.Core.Path.{subst}
use real_estate_multi_tenant.Prelude.{
  ℕ, suc, ◌≡◌, ◌≤◌, refl, sym, ap, ◌∙◌, String, Bool, true, List, [], ◌∷◌, ◌++◌, Option, none, some,
  ◌==◌, arith,
}
use real_estate_multi_tenant.Db.{
  TenantRow, Table, Db, Result, M, pure, ◌>>=◌, ◌>>◌, users, set_rows,
}
use real_estate_multi_tenant.Db.Respects.{
  Respects, Respects-bind, Respects-insert, Respects-pure, Respects-raise, Respects-attempt,
  respects_rules,
}
use real_estate_multi_tenant.Db.Ends.{Ends, Ends-same, Ends-bind, Ends-map}
use real_estate_multi_tenant.Schemas.Manager.{generate_schema_name, create_schema}
use real_estate_multi_tenant.Schemas.Migrations.{Migration, run_tenant_migration}
use real_estate_multi_tenant.Schemas.Actions.{create_schema-Respects, migration-Respects}
use real_estate_multi_tenant.Users.Repository.{accepts}
use real_estate_multi_tenant.Tenants.Dto.{CreateTenantDto, AdminData, get_admin_data}
use real_estate_multi_tenant.Tenants.Repository
use real_estate_multi_tenant.Tenants.Repository.{
  TenantData, Change, schema, has_id, new_row, set_change, still_accepts,
}
use real_estate_multi_tenant.Tenants.Service.{
  admin_row, tenant_data, refuse_taken, temp_schema_name, create_admin_user, create_in_transaction,
}
use real_estate_multi_tenant.Tenants.Sound.{Sound}
use real_estate_multi_tenant.Tenants.Registry.{
  SameTenants, SameTenants-preorder, making, Appended, insert-Appended, Set, update-Set,
}

-- A new tenant: the registry has one row more, with the next id, the schema of that id and the data
-- of the request, and it is active.
pub record Created (dto : CreateTenantDto) (s : Db) (id : ℕ) (s' : Db) : Type 0 where
  pub row : TenantRow
  pub appended :
      s'.tenants ≡ record { rows = s.tenants.rows ++ row ∷ []; next = suc s.tenants.next }
  pub has_id : row.id ≡ id
  pub new_id : id ≡ s.tenants.next
  pub schema : row.schema_name ≡ generate_schema_name id
  pub name : row.name ≡ dto.name
  pub active : row.is_active ≡ true

pub set-append :
    (id : ℕ) (f : TenantRow → TenantRow) (ts : List TenantRow) (t : TenantRow)
    → Sound id ts
    → t.id ≡ id
    → set_rows (has_id id) f (ts ++ t ∷ []) ≡ ts ++ f t ∷ []
unfolding has_id
set-append id f [] t v e = let hit : (t.id == id) ≡ true = ground arith in rw hit
set-append id f (u ∷ ts) t (z, b, n, d, v) e =
    let miss : (u.id == id) ≡ Bool.false = ground arith in
    rw miss (ap (λ rest. u ∷ rest) (set-append id f ts t v e))

module _ (pending : String → Db → Result (List Migration)) (hash : ℕ → String → String)
    (dto : CreateTenantDto) where
  -- An action that leaves the registry alone.
  same-Ends :
      {A : Type 0} (X : Table TenantRow) (n : ℕ) (m : M A) (s : Db)
      → Respects SameTenants m
      → s.tenants ≡ X
      → n ≤ X.next
      → Ends (λ a s'. s'.tenants ≡ X) (λ s'. n ≤ s'.tenants.next) (m s)
  same-Ends X n m s h e le = Ends-same _ _ (m s).0 (m s).1 (λ a. h.at s ∙ e) (rw (h.at s ∙ e) le)

  find-Same : (name : String) → Respects SameTenants (Repository.find_by_schema_name name)
  unfolding Repository.find_by_schema_name
  find-Same name = search (SameTenants-preorder, respects_rules)

  refuse-Same : (existing : Option TenantRow) → Respects SameTenants (refuse_taken existing)
  refuse-Same none = search (SameTenants-preorder, respects_rules)
  refuse-Same (some t) = search (SameTenants-preorder, respects_rules)

  admin-Same :
      (name : String) (admin : AdminData)
      → Respects SameTenants (create_admin_user pending hash name admin)
  unfolding create_admin_user
  admin-Same name admin = record {
    at = λ s.
        (Respects-attempt SameTenants-preorder _ _
            (Respects-bind SameTenants-preorder _ _
              (Respects-insert SameTenants-preorder users name (accepts name)
                (admin_row admin (hash s.statements admin.password)) (λ s t e c. refl)
                (λ s t e. refl))
              (λ row. Respects-pure SameTenants-preorder tt))
            (λ e. Respects-raise SameTenants-preorder _)).at
          s;
  }

  -- From the row on, the registry stays as it is.
  set_up : ℕ → M ℕ
  set_up id = do
    create_schema (generate_schema_name id)
    run_tenant_migration pending (generate_schema_name id)
    create_admin_user pending hash (generate_schema_name id) (get_admin_data dto id)
    pure id

  set_up-Ends :
      (id : ℕ) (X : Table TenantRow) (n : ℕ) (s : Db)
      → s.tenants ≡ X
      → n ≤ X.next
      → Ends (λ a s'. (a ≡ id) × (s'.tenants ≡ X)) (λ s'. n ≤ s'.tenants.next) (set_up id s)
  unfolding set_up
  set_up-Ends id X n s e le =
      let name = generate_schema_name id in
      let P = SameTenants-preorder in
      Ends-bind (λ a s'. s'.tenants ≡ X) _ _ (create_schema name) _ s
        (same-Ends X n _ s (create_schema-Respects P making name) e le)
        λ _ s1 e1.
          Ends-bind (λ a s'. s'.tenants ≡ X) _ _ (run_tenant_migration pending name) _ s1
            (same-Ends X n _ s1 (migration-Respects P making pending name) e1 le)
            λ _ s2 e2.
              Ends-bind (λ a s'. s'.tenants ≡ X) _ _
                (create_admin_user pending hash name (get_admin_data dto id)) _ s2
                (same-Ends X n _ s2 (admin-Same name _) e2 le) λ _ s3 e3. (refl, e3)

  named :
      (s : Db) (input : TenantData) (row : TenantRow) (s1 s2 : Db) (rows : List TenantRow)
      → Sound s.tenants.next s.tenants.rows
      → Appended input s.tenants row s1
      → Set row.id (schema (generate_schema_name row.id)) s1 rows s2
      → (now : ℕ) × (s2.tenants ≡ record {
        rows = s.tenants.rows ++ set_change (schema (generate_schema_name row.id)) now row ∷ [];
        next = suc s.tenants.next;
      })
  named s input row s1 s2 rows v (grown, made, fresh) (now, h) =
      let f = set_change (schema (generate_schema_name row.id)) now in
      (
        now,
        h
            ∙ (ap (λ (T : Table TenantRow). record T { rows = set_rows (has_id row.id) f T.rows })
                  grown
                ∙ ap (λ rows'. record { rows = rows'; next = suc s.tenants.next })
                    (set-append row.id f s.tenants.rows row (rw fresh v) refl)),
      )

  created :
      (s : Db) (temp : String) (row : TenantRow) (now id : ℕ) (s' : Db)
      → row ≡ new_row (tenant_data dto temp) row.id row.created_at
      → row.id ≡ s.tenants.next
      → id ≡ row.id
      → s'.tenants ≡ record {
        rows = s.tenants.rows ++ set_change (schema (generate_schema_name row.id)) now row ∷ [];
        next = suc s.tenants.next;
      }
      → Created dto s id s'
  created s temp row now id s' made fresh same h = record {
    row = set_change (schema (generate_schema_name row.id)) now row;
    appended = h;
    has_id = sym same;
    new_id = same ∙ fresh;
    schema = ap generate_schema_name (sym same);
    name = ap (λ (t : TenantRow). t.name) made;
    active = ap (λ (t : TenantRow). t.is_active) made;
  }

  -- What stands behind the insert.
  name_row :
      (s : Db)
      → Sound s.tenants.next s.tenants.rows
      → (temp : String) (row : TenantRow) (s3 : Db)
      → Appended (tenant_data dto temp) s.tenants row s3
      → Ends
          (Created dto s)
          (λ s'. s.tenants.next ≤ s'.tenants.next)
          ((Repository.update row.id (schema (generate_schema_name row.id)) >>= λ rows.
              set_up row.id)
            s3)
  name_row s v temp row s3 (grown, made, fresh) =
      Ends-bind
        (λ (rows : List TenantRow) (s4 : Db).
          (now : ℕ) × (s4.tenants ≡ record {
            rows = s.tenants.rows ++ set_change (schema (generate_schema_name row.id)) now row ∷ [];
            next = suc s.tenants.next;
          }))
        _ _ (Repository.update row.id (schema (generate_schema_name row.id))) _ s3
        (Ends-map _ _ (SameTenants s3) (λ x. s.tenants.next ≤ x.tenants.next)
          (Repository.update row.id (schema (generate_schema_name row.id)) s3)
          (update-Set row.id (schema (generate_schema_name row.id)) s3)
          (λ rows s4 h. named s (tenant_data dto temp) row s3 s4 rows v (grown, made, fresh) h)
          (λ s4 e. rw (e, grown) (omega arith)))
        λ rows s4 (now, e4).
          Ends-map {A = ℕ} _ (Created dto s) _ (λ x. s.tenants.next ≤ x.tenants.next)
            (set_up row.id s4) (set_up-Ends row.id _ s.tenants.next s4 e4 (omega arith))
            (λ id s' (same, e). created s temp row now id s' made fresh same e) (λ s' le. le)

  -- Where the body of the transaction returns, it has appended the new tenant; where it throws, the
  -- sequence has not gone back.
  pub create_in_transaction-Ends :
      (s : Db)
      → Sound s.tenants.next s.tenants.rows
      → Ends
          (Created dto s)
          (λ s'. s.tenants.next ≤ s'.tenants.next)
          (create_in_transaction pending hash dto s)
  unfolding create_in_transaction set_up
  create_in_transaction-Ends s v =
      let temp = temp_schema_name dto.name (s.time s.statements) in
      Ends-bind (λ a s'. s'.tenants ≡ s.tenants) _ _ (Repository.find_by_schema_name temp) _ s
        (same-Ends s.tenants s.tenants.next _ s (find-Same temp) refl (omega arith))
        λ existing s1 e1.
          Ends-bind (λ a s'. s'.tenants ≡ s.tenants) _ _ (refuse_taken existing) _ s1
            (same-Ends s.tenants s.tenants.next _ s1 (refuse-Same existing) e1 (omega arith))
            λ _ s2 e2.
              Ends-bind (Appended (tenant_data dto temp) s.tenants) _ _
                (Repository.create (tenant_data dto temp)) _ s2
                (subst
                  (λ (X : Table TenantRow).
                    Ends (Appended (tenant_data dto temp) X) (λ s'. X.next ≤ s'.tenants.next)
                      (Repository.create (tenant_data dto temp) s2))
                  e2 (insert-Appended (tenant_data dto temp) s2))
                λ row s3 e3. name_row s v temp row s3 e3
