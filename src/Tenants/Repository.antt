-- ===== src/Tenants/Repository.antt =====
-- src/modules/tenants/repository/tenant.repository.js: calls of the model, which the ORM turns into
-- one statement each. `order` stands for ORDER BY created_at DESC.
use real_estate_multi_tenant.Prelude.{
  ℕ, ℤ, String, Bool, true, false, List, [], ◌∷◌, Option, not, ◌&&◌, ◌||◌, ◌==◌, any, head?, length,
  leb, text_length, or_else, ltb, str_eq, if◌then◌else◌,
}
use real_estate_multi_tenant.Db.{
  TenantRow, Table, Db, M, pure, ◌>>=◌, tenants, select_where, count_where, select_page,
  insert_into, update_where,
}
use real_estate_multi_tenant.Paging.{page_of}
use real_estate_multi_tenant.Tenants.Dto.{UpdateTenantDto}

unfoldable pub has_id : ℕ → TenantRow → Bool
has_id id t = t.id == id

unfoldable pub has_schema_name : String → TenantRow → Bool
has_schema_name name t = str_eq t.schema_name name

-- The values of the column `subscription_type`.
abbrev pub is_subscription : String → Bool
is_subscription s = str_eq s "Basic" || str_eq s "Premium"

-- STRING(255) of the columns `name` and `contact`, and STRING(100) of `schema_name`.
unfoldable pub fits_lengths : TenantRow → Bool
unfolding text_length
fits_lengths t =
    leb (text_length t.name) 255
    && (leb (text_length t.contact) 255 && leb (text_length t.schema_name) 100)

-- The constraints of the table on a new row, and on the rows after an update.
unfoldable pub accepts : Db → Table TenantRow → TenantRow → Bool
unfolding any has_schema_name fits_lengths
accepts s t row =
    not (any (has_schema_name row.schema_name) t.rows)
    && (is_subscription row.subscription_type && fits_lengths row)

abbrev pub still_accepts : List TenantRow → Bool
still_accepts [] = true
still_accepts (t ∷ ts) =
    not (any (λ u. str_eq u.schema_name t.schema_name) ts)
    && ((is_subscription t.subscription_type && fits_lengths t) && still_accepts ts)

-- The data that `createTenant` hands to the model.
pub record TenantData : Type 0 where
  pub name : String
  pub contact : String
  pub subscription_type : String
  pub schema_name : String
  pub is_active : Bool

abbrev pub new_row : TenantData → ℕ → ℕ → TenantRow
new_row input id now = record {
  id = id;
  name = input.name;
  contact = input.contact;
  subscription_type = input.subscription_type;
  schema_name = input.schema_name;
  is_active = input.is_active;
  created_at = now;
  updated_at = now;
}

unfoldable pub create : TenantData → M TenantRow
create input = insert_into tenants "public" accepts (new_row input)

unfoldable pub find_by_id : ℕ → M (Option TenantRow)
find_by_id id = do rows ← select_where tenants "public" (has_id id); pure (head? rows)

unfoldable pub find_by_schema_name : String → M (Option TenantRow)
find_by_schema_name name = do
  rows ← select_where tenants "public" (has_schema_name name)
  pure (head? rows)

abbrev pub is_listed : Bool → TenantRow → Bool
is_listed active_only t = if active_only then t.is_active else true

unfoldable pub find_all : (List TenantRow → List TenantRow) → Bool → ℤ → ℤ → M (List TenantRow)
find_all order active_only limit offset =
    select_page tenants "public" (is_listed active_only) (λ rows. page_of limit offset (order rows))

unfoldable pub count : Bool → M ℕ
count active_only = count_where tenants "public" (is_listed active_only)

-- What an update sets: the fields of a DTO, the schema name, or the column `is_active`.
pub data Change : Type 0 where
  fields : UpdateTenantDto → Change
  schema : String → Change
  active : Bool → Change

abbrev pub apply : Change → TenantRow → TenantRow
apply (fields dto) t = record t {
  name = or_else dto.name t.name;
  contact = or_else dto.contact t.contact;
  subscription_type = or_else dto.subscription_type t.subscription_type;
}
apply (schema name) t = record t { schema_name = name }
apply (active b) t = record t { is_active = b }

abbrev pub set_change : Change → ℕ → TenantRow → TenantRow
set_change c now t = record (apply c t) { updated_at = now }

unfoldable pub update : ℕ → Change → M (List TenantRow)
update id c = update_where tenants "public" (has_id id) still_accepts (set_change c)

unfoldable pub activate : ℕ → M ℕ
unfolding update
activate id = do rows ← update id (active true); pure (length rows)

unfoldable pub deactivate : ℕ → M ℕ
unfolding update
deactivate id = do rows ← update id (active false); pure (length rows)

unfoldable pub soft_delete : ℕ → M ℕ
soft_delete id = deactivate id

unfoldable pub schema_name_exists : String → M Bool
schema_name_exists name = do n ← count_where tenants "public" (has_schema_name name); pure (ltb 0 n)
