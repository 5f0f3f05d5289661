-- ===== src/Projects/Repository.antt =====
-- src/modules/projects/repository/project.repository.js. A `catch` that throws the error again is
-- left out; one that returns a value is kept. `order` stands for ORDER BY created_at DESC.
use real_estate_multi_tenant.Prelude.{
  ℕ, ℤ, String, Bool, true, false, List, [], ◌∷◌, Option, none, some, ◌&&◌, ◌||◌, ◌==◌, head?,
  is_some, or_else, str_eq, if◌then◌else◌,
}
use real_estate_multi_tenant.Db.{
  ProjectRow, Table, Db, M, pure, ◌>>=◌, attempt, projects, select_where, count_where, select_page,
  insert_into, update_where,
}
use real_estate_multi_tenant.Paging.{page_of}
use real_estate_multi_tenant.Projects.Dto.{CreateProjectDto, UpdateProjectDto, has_updates}

unfoldable pub has_id : ℕ → ProjectRow → Bool
has_id id p = p.id == id

-- The values of the column `status`.
abbrev pub is_status : String → Bool
is_status s =
    str_eq s "Planning"
    || (str_eq s "Under Construction" || (str_eq s "Completed" || str_eq s "On Hold"))

-- `tenant_id` is not null, and the status is one of the column's values.
unfoldable pub accepts : CreateProjectDto → Db → Table ProjectRow → ProjectRow → Bool
accepts dto s t row = is_some dto.tenant_id && is_status row.status

abbrev pub still_accepts : List ProjectRow → Bool
still_accepts [] = true
still_accepts (p ∷ ps) = is_status p.status && still_accepts ps

-- A row whose tenant is missing is refused, whatever stands for it here.
abbrev pub new_row : CreateProjectDto → ℕ → ℕ → ProjectRow
new_row dto id now = record {
  id = id;
  tenant_id = or_else dto.tenant_id 0;
  name = dto.name;
  location = dto.location;
  description = dto.description;
  total_units = dto.total_units;
  status = dto.status;
  is_active = true;
  created_at = now;
  updated_at = now;
}

unfoldable pub create : CreateProjectDto → String → M ProjectRow
create dto schema = insert_into projects schema (accepts dto) (new_row dto)

-- An error of the query is swallowed: the project counts as missing.
unfoldable pub find_by_id : ℕ → String → M (Option ProjectRow)
find_by_id id schema =
    attempt (do rows ← select_where projects schema (has_id id); pure (head? rows)) (λ e. pure none)

-- The options of `findAll` and `count`; a status that is undefined or empty adds no condition.
pub record ProjectFilter : Type 0 where
  pub active_only : Bool
  pub status : Option String

abbrev has_status : Option String → ProjectRow → Bool
has_status none p = true
has_status (some status) p = str_eq p.status status

unfoldable pub matches : ProjectFilter → ProjectRow → Bool
matches o p = (if o.active_only then p.is_active else true) && has_status o.status p

unfoldable pub find_all :
    (List ProjectRow → List ProjectRow) → String → ProjectFilter → ℤ → ℤ → M (List ProjectRow)
find_all order schema o limit offset =
    attempt (select_page projects schema (matches o) (λ rows. page_of limit offset (order rows)))
      (λ e. pure [])

unfoldable pub count : String → ProjectFilter → M ℕ
count schema o = attempt (count_where projects schema (matches o)) (λ e. pure 0)

abbrev pub set_fields : UpdateProjectDto → ℕ → ProjectRow → ProjectRow
set_fields dto now p = record p {
  name = or_else dto.name p.name;
  location = or_else dto.location p.location;
  description = or_else dto.description p.description;
  total_units = or_else dto.total_units p.total_units;
  status = or_else dto.status p.status;
  is_active = or_else dto.is_active p.is_active;
  updated_at = now;
}

unfoldable pub update : ℕ → UpdateProjectDto → String → M (Option ProjectRow)
unfolding find_by_id has_updates
update id dto schema =
    let set = do
      rows ← update_where projects schema (has_id id) still_accepts (set_fields dto)
      pure (head? rows)
    in if has_updates dto then set else find_by_id id schema

abbrev pub set_inactive : ℕ → ProjectRow → ProjectRow
set_inactive now p = record p { is_active = false; updated_at = now }

abbrev pub unchecked {ℓ} : {A : Type ℓ} → List A → Bool
unchecked rows = true

unfoldable pub soft_delete : ℕ → String → M Bool
soft_delete id schema =
    attempt (do rows ← update_where projects schema (has_id id) unchecked set_inactive; pure true)
      (λ e. pure false)
