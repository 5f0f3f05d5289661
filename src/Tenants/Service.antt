-- ===== src/Tenants/Service.antt =====
-- src/modules/tenants/tenant.service.js: `pending` is the package umzug, `hash` is `bcrypt.hash` with
-- the salt that it draws.
use Prim.Native.Char.{Char, code}
use Prim.Native.String.{[], ◌∷◌, ◌++◌, char_at}
use real_estate_multi_tenant.Prelude.{
  ℕ, ℤ, pos, ◌-◌, String, Bool, true, false, List, Option, none, some, ◌&&◌, ◌||◌, ◌==◌, leb,
  decimal, if◌then◌else◌,
}
use real_estate_multi_tenant.Errors.{Error, message, conflict, not_found, internal}
use real_estate_multi_tenant.Db.{
  TenantRow, UserRow, Db, Result, ok, err, M, pure, raise, lift, ◌>>=◌, ◌>>◌, attempt, users,
  insert_into,
}
use real_estate_multi_tenant.Db.Transaction.{begin, commit, rollback, finished}
use real_estate_multi_tenant.Paging.{or_default, offset_of, sub_ℕ}
use real_estate_multi_tenant.Schemas.Manager.{generate_schema_name, create_schema}
use real_estate_multi_tenant.Schemas.Migrations.{Migration, run_tenant_migration}
use real_estate_multi_tenant.Users.Repository.{accepts}
use real_estate_multi_tenant.Tenants.Dto.{
  CreateTenantDto, AdminData, UpdateTenantDto, get_admin_data, has_updates, tenant_response,
}
use real_estate_multi_tenant.Tenants.Repository
use real_estate_multi_tenant.Tenants.Repository.{Change, fields, schema, TenantData}

abbrev pub is_between : ℕ → ℕ → ℕ → Bool
is_between low high n = leb low n && leb n high

-- One character of `name.toLowerCase().replace(/[^a-z0-9]/g, '_')`. Two characters beyond ASCII have
-- a lower case that begins with a letter of ASCII, and one beyond the basic plane is two units.
unfoldable pub slug_char : Char → String
slug_char c =
    let n = code c in
    if is_between 97 122 n || is_between 48 57 n
    then c ∷ []
    else if is_between 65 90 n
    then char_at "abcdefghijklmnopqrstuvwxyz" (n - 65) ∷ []
    else if n == 8490
    then "k"
    else if n == 304
    then "i_"
    else if leb 65536 n
    then "__"
    else "_"

unfoldable pub slug : String → String
unfolding slug_char
slug [] = []
slug (c ∷ s) = slug_char c ++ slug s

-- `Date.now()` is the clock of the statement that comes next.
unfoldable pub temp_schema_name : String → ℕ → String
unfolding slug decimal
temp_schema_name name now = "tenant_" ++ (slug name ++ ("_" ++ decimal now))

abbrev pub tenant_data : CreateTenantDto → String → TenantData
tenant_data dto temp = record {
  name = dto.name;
  contact = dto.contact;
  subscription_type = dto.subscription_type;
  schema_name = temp;
  is_active = true;
}

abbrev pub admin_row : AdminData → String → ℕ → ℕ → UserRow
admin_row admin password_hash id now = record {
  id = id;
  tenant_id = some admin.tenant_id;
  name = admin.name;
  email = admin.email;
  password_hash = password_hash;
  role = admin.role;
  is_active = true;
  created_at = now;
  updated_at = now;
}

abbrev pub refuse_taken : Option TenantRow → M (Unit {0})
refuse_taken none = pure tt
refuse_taken (some t) = raise (conflict "A tenant with similar name already exists")

-- The error that `createTenant` throws at the end for one that was caught.
abbrev pub creation_error : Error → Error
creation_error (conflict m) = conflict m
creation_error (not_found m) = not_found m
creation_error e = internal ("Failed to create tenant: " ++ message e)

module _ (pending : String → Db → Result (List Migration)) (hash : ℕ → String → String) where
  unfoldable pub create_admin_user : String → AdminData → M (Unit {0})
  create_admin_user name admin s =
      attempt
        (do
          row ←
              insert_into users name (accepts name)
                (admin_row admin (hash s.statements admin.password))
          pure tt)
        (λ e. raise (internal "Failed to create admin user")) s

  -- What stands between the begin and the commit: the id of the new tenant.
  unfoldable pub create_in_transaction : CreateTenantDto → M ℕ
  create_in_transaction dto s =
      (do
        let temp = temp_schema_name dto.name (s.time s.statements)
        existing ← Repository.find_by_schema_name temp
        refuse_taken existing
        tenant ← Repository.create (tenant_data dto temp)
        let name = generate_schema_name tenant.id
        rows ← Repository.update tenant.id (schema name)
        create_schema name
        run_tenant_migration pending name
        create_admin_user name (get_admin_data dto tenant.id)
        pure tenant.id)
        s

  -- The catch before the commit. `error.schemaName` is never set, so no schema is dropped.
  abbrev pub abort : Db → Error → M TenantRow
  abort before e = do rollback before; raise (creation_error e)

  abbrev pub publish : Db → ℕ → M TenantRow
  publish before id = do
    commit before
    created ← Repository.find_by_id id
    lift (tenant_response created)

  -- Once the commit was tried, the rollback in the catch throws.
  abbrev pub finish : Db → ℕ → M TenantRow
  finish before id = attempt (publish before id) (λ e. raise finished)

  abbrev pub conclude : Db → Result ℕ → M TenantRow
  conclude before (ok id) = finish before id
  conclude before (err e) = abort before e

  abbrev pub transact : CreateTenantDto → M TenantRow
  transact dto before = let (r, s) = create_in_transaction dto before in conclude before r s

  unfoldable pub create_tenant : CreateTenantDto → M TenantRow
  create_tenant dto = do begin; transact dto

pub record TenantPage : Type 0 where
  pub tenants : List TenantRow
  pub total : ℕ
  pub page : ℤ
  pub limit : ℤ

unfoldable pub get_all_tenants :
    (List TenantRow → List TenantRow) → Bool → Option ℤ → Option ℤ → M TenantPage
get_all_tenants order active_only page_option limit_option = do
  let page = or_default page_option (pos 1)
  let limit = or_default limit_option (pos 10)
  rows ← Repository.find_all order active_only limit (offset_of page limit)
  total ← Repository.count active_only
  pure (record { tenants = rows; total = total; page = page; limit = limit })

-- `if (!tenant) throw new NotFoundError(…)`
unfoldable pub found : Option TenantRow → M TenantRow
found none = raise (not_found "Tenant not found")
found (some t) = pure t

unfoldable pub get_tenant_by_id : ℕ → M TenantRow
get_tenant_by_id id = do
  tenant ← Repository.find_by_id id
  t ← found tenant
  lift (tenant_response (some t))

-- The row as it is read again after a change.
abbrev pub read_again : ℕ → M TenantRow
read_again id = do updated ← Repository.find_by_id id; lift (tenant_response updated)

unfoldable pub update_tenant : ℕ → UpdateTenantDto → M TenantRow
update_tenant id dto = do
  tenant ← Repository.find_by_id id
  t ← found tenant
  let save = do rows ← Repository.update id (fields dto); read_again id
  if has_updates dto then save else lift (tenant_response (some t))

unfoldable pub activate_tenant : ℕ → M TenantRow
activate_tenant id = do
  tenant ← Repository.find_by_id id
  t ← found tenant
  let save = do affected ← Repository.activate id; read_again id
  if t.is_active then lift (tenant_response (some t)) else save

unfoldable pub deactivate_tenant : ℕ → M TenantRow
deactivate_tenant id = do
  tenant ← Repository.find_by_id id
  t ← found tenant
  let save = do affected ← Repository.deactivate id; read_again id
  if t.is_active then save else lift (tenant_response (some t))

pub record TenantStats : Type 0 where
  pub total : ℕ
  pub active : ℕ
  pub inactive : ℤ

unfoldable pub get_tenant_stats : M TenantStats
get_tenant_stats = do
  total ← Repository.count false
  active ← Repository.count true
  pure (record { total = total; active = active; inactive = sub_ℕ total active })
