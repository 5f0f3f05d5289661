-- ===== src/Tenants/Onboarding.antt =====
-- The statements of `createTenant` behind the registry where none fails: the schema, its tables and the
-- Admin user.
use mathlib.Core.Path.{subst}
use real_estate_multi_tenant.Prelude.{
  leb, text_length, arith, ◌≤◌, ℕ, suc, ◌≡◌, refl, ap, String, true, List, [], ◌∷◌, some,
  str_eq-differs, any,
}
use real_estate_multi_tenant.Db.{TenantRow, UserRow, Table, Db, Result, ok, pure, ◌>>◌, users}
use real_estate_multi_tenant.Db.Healthy.{Healthy, insert-eq}
use real_estate_multi_tenant.Db.Ends.{Ends, Ends-bind}
use real_estate_multi_tenant.Schemas.Slots.{Tables, tables_of, bare, Fails, Holds, update-hit}
use real_estate_multi_tenant.Schemas.Manager.{generate_schema_name, create_schema}
use real_estate_multi_tenant.Schemas.Migrations.{Migration, run_tenant_migration, empty}
use real_estate_multi_tenant.Schemas.Complete.{
  in_order, complete, create_schema-Ends, migration-Goes,
}
use real_estate_multi_tenant.Access.Roles.{admin}
use real_estate_multi_tenant.Users.Repository.{accepts, fits_schema, fits_lengths}
use real_estate_multi_tenant.Tenants.Dto.{CreateTenantDto, get_admin_data}
use real_estate_multi_tenant.Tenants.Service.{admin_row, create_admin_user}
use real_estate_multi_tenant.Tenants.Sound.{generate-not_public}
use real_estate_multi_tenant.Tenants.Ready.{At}

-- The schema of the tenant has one user, the Admin of the request, with a hash of the password.
pub record HasAdmin (hash : ℕ → String → String) (dto : CreateTenantDto) (id : ℕ) (s : Db)
    : Type 0 where
  pub row : UserRow
  pub one_user : s.users (generate_schema_name id) ≡ some (record { rows = row ∷ []; next = 2 })
  pub tenant_id : row.tenant_id ≡ some id
  pub name : row.name ≡ dto.admin_name
  pub email : row.email ≡ dto.admin_email
  pub role : row.role ≡ admin
  pub active : row.is_active ≡ true
  pub draw : ℕ
  pub hashed : row.password_hash ≡ hash draw dto.admin_password

-- What is inserted of the Admin fits the columns.
pub record ShortAdmin (hash : ℕ → String → String) (dto : CreateTenantDto) : Type 0 where
  pub name : text_length dto.admin_name ≤ 255
  pub email : text_length dto.admin_email ≤ 255
  pub hashed : (draw : ℕ) → text_length (hash draw dto.admin_password) ≤ 255

module _ (pending : String → Db → Result (List Migration)) (hash : ℕ → String → String)
    (reports : (name : String) (s : Db)
      → Healthy s
      → tables_of name s ≡ bare
      → pending name s ≡ ok in_order)
    (dto : CreateTenantDto) (short : ShortAdmin hash dto) (id : ℕ) where
  abbrev name_of : String
  name_of = generate_schema_name id

  admin-fits :
      (password_hash : String) (i now : ℕ)
      → fits_schema name_of (admin_row (get_admin_data dto id) password_hash i now) ≡ true
  unfolding fits_schema get_admin_data
  admin-fits password_hash i now =
      rw (str_eq-differs name_of "public" (generate-not_public id)) refl

  admin-short :
      (draw i now : ℕ)
      → fits_lengths name_of
          (admin_row (get_admin_data dto id) (hash draw dto.admin_password) i now)
        ≡ true
  unfolding fits_lengths get_admin_data
  admin-short draw i now =
      let name : leb (text_length dto.admin_name) 255 ≡ true = ground (arith, short.name) in
      let email : leb (text_length dto.admin_email) 255 ≡ true = ground (arith, short.email) in
      let hashed : leb (text_length (hash draw dto.admin_password)) 255 ≡ true =
        ground (arith, short.hashed draw) in
      rw (name, email, hashed, str_eq-differs name_of "public" (generate-not_public id)) refl

  admin-Ends :
      (s : Db)
      → Healthy s
      → s.users name_of ≡ some empty
      → Ends
          (λ done s'. Healthy s' × HasAdmin hash dto id s')
          Fails
          (create_admin_user pending hash name_of (get_admin_data dto id) s)
  unfolding create_admin_user accepts any get_admin_data
  admin-Ends s alive e =
      let row = admin_row (get_admin_data dto id) (hash s.statements dto.admin_password) in
      rw
        (insert-eq users name_of s empty (alive s.statements) e (accepts name_of) row (
          rw
            (
              admin-fits (hash s.statements dto.admin_password) 1 (s.time (suc s.statements)),
              admin-short s.statements 1 (s.time (suc s.statements)),
            )
            refl))
        (
          alive,
          record {
            row = row 1 (s.time (suc s.statements));
            one_user = update-hit name_of s.users _;
            tenant_id = refl;
            name = refl;
            email = refl;
            role = refl;
            active = refl;
            draw = s.statements;
            hashed = refl;
          },
        )

  pub set_up-Ends :
      (X : Table TenantRow) (s : Db)
      → At name_of X s
      → Ends
          (λ (a : ℕ) s'. (a ≡ id) × Healthy s' × HasAdmin hash dto id s')
          Fails
          ((do
            create_schema name_of
            run_tenant_migration pending name_of
            create_admin_user pending hash name_of (get_admin_data dto id)
            pure id)
            s)
  set_up-Ends X s at =
      Ends-bind (λ done s'. Holds name_of bare s') _ Fails (create_schema name_of) _ s
        (subst
          (λ (x : Tables). Ends (λ done s'. Holds name_of x s') Fails (create_schema name_of s))
          at.clear (create_schema-Ends name_of s at.healthy))
        λ _ s1 h1.
          Ends-bind (λ done s'. Holds name_of (complete bare) s') _ Fails
            (run_tenant_migration pending name_of) _ s1
            (migration-Goes name_of pending bare (reports name_of) refl refl s1 h1)
            λ _ s2 h2.
              Ends-bind (λ done s'. Healthy s' × HasAdmin hash dto id s') _ Fails
                (create_admin_user pending hash name_of (get_admin_data dto id)) _ s2
                (admin-Ends s2 h2.healthy (ap (λ (x : Tables). x.users) h2.tables))
                λ _ s3 (alive, h). (refl, alive, h)
