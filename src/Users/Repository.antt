-- ===== src/Users/Repository.antt =====
-- src/modules/users/repository/user.repository.js. A `catch` that throws the error again is left
-- out; one that returns a value is kept. `order` stands for ORDER BY created_at DESC, `hash` for
-- `bcrypt.hash` with the salt that it draws and `compare` for `bcrypt.compare`.
use real_estate_multi_tenant.Prelude.{
  ℕ, ℤ, String, Bool, true, false, List, [], ◌∷◌, Option, none, some, ◌&&◌, ◌||◌, ◌==◌, any, not,
  head?, is_some, leb, text_length, or_else, str_eq, if◌then◌else◌,
}
use real_estate_multi_tenant.Db.{
  UserRow, TenantRow, Table, Db, M, pure, ◌>>=◌, attempt, users, select_where, count_where,
  select_page, insert_into, update_where, delete_where,
}
use real_estate_multi_tenant.Paging.{page_of}
use real_estate_multi_tenant.Access.Roles.{admin, sales, viewer}
use real_estate_multi_tenant.Access.Auth.{truthy_id}
use real_estate_multi_tenant.Access.TenantResolver.{select_tenants}
use real_estate_multi_tenant.Users.Dto.{CreateUserDto, UpdateUserDto, has_updates}

unfoldable pub has_id : ℕ → UserRow → Bool
has_id id u = u.id == id

unfoldable pub has_email : String → UserRow → Bool
has_email email u = str_eq u.email email

-- No two rows have the same email: the unique index of the table.
abbrev pub emails_differ : List UserRow → Bool
emails_differ [] = true
emails_differ (u ∷ us) = not (any (λ v. str_eq v.email u.email) us) && emails_differ us

-- The type of the column `role`, and NOT NULL of `tenant_id`. The public table has a free role and
-- no column `tenant_id`.
unfoldable pub fits_schema : String → UserRow → Bool
fits_schema schema u =
    if str_eq schema "public"
    then not (is_some u.tenant_id)
    else is_some u.tenant_id
      && (str_eq u.role admin || (str_eq u.role sales || str_eq u.role viewer))

-- STRING(255) of three columns. The role of the public table has at most 50 characters.
unfoldable pub fits_lengths : String → UserRow → Bool
unfolding text_length
fits_lengths schema u =
    leb (text_length u.name) 255
    && (leb (text_length u.email) 255
        && (leb (text_length u.password_hash) 255
            && (if str_eq schema "public" then leb (text_length u.role) 50 else true)))

unfoldable pub accepts : String → Db → Table UserRow → UserRow → Bool
unfolding has_email fits_schema fits_lengths any
accepts schema s t u =
    not (any (has_email u.email) t.rows) && (fits_schema schema u && fits_lengths schema u)

abbrev pub new_row : CreateUserDto → String → ℕ → ℕ → UserRow
new_row dto password_hash id now = record {
  id = id;
  tenant_id = truthy_id dto.tenant_id;
  name = dto.name;
  email = dto.email;
  password_hash = password_hash;
  role = dto.role;
  is_active = true;
  created_at = now;
  updated_at = now;
}

-- An error of the query is swallowed: the user counts as missing.
unfoldable pub find_by_id : ℕ → String → M (Option UserRow)
find_by_id id schema =
    attempt (do rows ← select_where users schema (has_id id); pure (head? rows)) (λ e. pure none)

unfoldable pub find_by_email : String → String → M (Option UserRow)
find_by_email email schema =
    attempt (do rows ← select_where users schema (has_email email); pure (head? rows))
      (λ e. pure none)

pub record Found : Type 0 where
  pub user : UserRow
  pub schema : String
  pub tenant_id : ℕ

abbrev pub found_in : TenantRow → Option UserRow → M (Option Found) → M (Option Found)
found_in t none rest = rest
found_in t (some u) rest =
    pure (some (record { user = u; schema = t.schema_name; tenant_id = t.id }))

-- `for (const tenant of tenants)`
unfoldable pub search_tenants : String → List TenantRow → M (Option Found)
search_tenants email [] = pure none
search_tenants email (t ∷ rest) = do
  user ← find_by_email email t.schema_name
  found_in t user (search_tenants email rest)

unfoldable pub find_by_email_across_tenants : String → M (Option Found)
find_by_email_across_tenants email =
    attempt (do tenants ← select_tenants (λ t. t.is_active); search_tenants email tenants)
      (λ e. pure none)

abbrev pub is_listed : Bool → UserRow → Bool
is_listed active_only u = if active_only then u.is_active else true

unfoldable pub find_all : (List UserRow → List UserRow) → String → Bool → ℤ → ℤ → M (List UserRow)
find_all order schema active_only limit offset =
    attempt
      (select_page users schema (is_listed active_only) (λ rows. page_of limit offset (order rows)))
      (λ e. pure [])

unfoldable pub count : String → Bool → M ℕ
count schema active_only = attempt (count_where users schema (is_listed active_only)) (λ e. pure 0)

-- `AND id != :excludeId`
abbrev pub differs_from : Option ℕ → UserRow → Bool
differs_from none u = true
differs_from (some id) u = not (u.id == id)

unfoldable pub email_exists : String → String → Option ℕ → M Bool
unfolding has_email
email_exists email schema exclude =
    attempt
      (do
        rows ←
            select_where users schema (λ u. has_email email u && differs_from (truthy_id exclude) u)
        pure (is_some (head? rows)))
      (λ e. pure false)

-- Statements that change no key leave the constraints of the table as they are.
abbrev pub unchecked : List UserRow → Bool
unchecked rows = true

abbrev pub set_inactive : ℕ → UserRow → UserRow
set_inactive now u = record u { is_active = false; updated_at = now }

unfoldable pub soft_delete : ℕ → String → M Bool
soft_delete id schema =
    attempt (do rows ← update_where users schema (has_id id) unchecked set_inactive; pure true)
      (λ e. pure false)

unfoldable pub hard_delete : ℕ → String → M Bool
hard_delete id schema =
    attempt (do done ← delete_where users schema (has_id id); pure true) (λ e. pure false)

abbrev all_fit : String → List UserRow → Bool
all_fit schema [] = true
all_fit schema (u ∷ us) = (fits_schema schema u && fits_lengths schema u) && all_fit schema us

-- The constraints of the table after an update.
abbrev pub still_accepts : String → List UserRow → Bool
still_accepts schema rows = emails_differ rows && all_fit schema rows

module _ (hash : ℕ → String → String) where
  unfoldable pub create : CreateUserDto → String → M UserRow
  create dto schema s =
      insert_into users schema (accepts schema) (new_row dto (hash s.statements dto.password)) s

  abbrev hashed : ℕ → Option String → Option String
  hashed salt none = none
  hashed salt (some password) = some (hash salt password)

  abbrev pub set_fields : ℕ → UpdateUserDto → ℕ → UserRow → UserRow
  set_fields salt dto now u = record u {
    name = or_else dto.name u.name;
    email = or_else dto.email u.email;
    password_hash = or_else (hashed salt dto.password) u.password_hash;
    role = or_else dto.role u.role;
    is_active = or_else dto.is_active u.is_active;
    updated_at = now;
  }

  unfoldable pub update : ℕ → UpdateUserDto → String → M (Option UserRow)
  unfolding find_by_id has_updates
  update id dto schema =
      let set = λ (s : Db).
        (do
          rows ←
              update_where users schema (has_id id) (still_accepts schema)
                (set_fields s.statements dto)
          pure (head? rows))
          s in
      if has_updates dto then set else find_by_id id schema
