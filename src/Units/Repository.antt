-- ===== src/Units/Repository.antt =====
-- src/modules/units/repository/unit.repository.js. A `catch` that throws the error again is left
-- out; one that returns a value is kept. `order` stands for ORDER BY project_id, unit_number.
use real_estate_multi_tenant.Prelude.{
  ℕ, ℤ, String, Bool, true, false, List, [], Option, none, some, ◌&&◌, ◌==◌, leb, any, head?,
  or_else, if◌then◌else◌,
}
use real_estate_multi_tenant.Db.{
  UnitStatus, available, booked, sold, UnitRow, ProjectRow, Table, Db, M, pure, ◌>>=◌, attempt,
  units, select_where, count_where, select_page, insert_into, update_where,
}
use real_estate_multi_tenant.Paging.{page_of}
use real_estate_multi_tenant.Units.Dto.{CreateUnitDto, UpdateUnitDto, has_updates}

abbrev pub status_eq : UnitStatus → UnitStatus → Bool
status_eq available available = true
status_eq booked booked = true
status_eq sold sold = true
status_eq _ _ = false

unfoldable pub has_id : ℕ → UnitRow → Bool
has_id id u = u.id == id

-- The foreign key `project_id` of the table.
abbrev pub has_project : Option (Table ProjectRow) → ℕ → Bool
has_project none id = false
has_project (some t) id = any (λ p. p.id == id) t.rows

unfoldable pub refers : String → Db → Table UnitRow → UnitRow → Bool
unfolding any
refers schema s t u = has_project (s.projects schema) u.project_id

abbrev pub new_row : CreateUnitDto → ℕ → ℕ → UnitRow
new_row dto id now = record {
  id = id;
  project_id = dto.project_id;
  unit_number = dto.unit_number;
  floor = dto.floor;
  area = dto.area;
  bedrooms = dto.bedrooms;
  bathrooms = dto.bathrooms;
  price = dto.price;
  status = dto.status;
  booked_by = none;
  booked_at = none;
  sold_at = none;
  is_active = true;
  created_at = now;
  updated_at = now;
}

unfoldable pub create : CreateUnitDto → String → M UnitRow
create dto schema = insert_into units schema (refers schema) (new_row dto)

-- An error of the query is swallowed: the unit counts as missing.
unfoldable pub find_by_id : ℕ → String → M (Option UnitRow)
find_by_id id schema =
    attempt (do rows ← select_where units schema (has_id id); pure (head? rows)) (λ e. pure none)

-- The options of `findAll` and `count`; an option that is undefined adds no condition.
pub record UnitFilter : Type 0 where
  pub active_only : Bool
  pub project_id : Option ℕ
  pub status : Option UnitStatus
  pub min_price : Option ℕ
  pub max_price : Option ℕ
  pub bedrooms : Option ℕ

abbrev pub condition {ℓ} : {A : Type ℓ} → Option A → (A → Bool) → Bool
condition none p = true
condition (some a) p = p a

-- `bedrooms = :bedrooms` is not true of NULL.
abbrev pub column_is : Option ℕ → ℕ → Bool
column_is none n = false
column_is (some m) n = m == n

unfoldable pub matches : UnitFilter → UnitRow → Bool
matches o u =
    (if o.active_only then u.is_active else true)
    && (condition o.project_id (λ id. u.project_id == id)
        && (condition o.status (λ st. status_eq u.status st)
            && (condition o.min_price (λ low. leb low u.price)
                && (condition o.max_price (λ high. leb u.price high)
                    && condition o.bedrooms (λ n. column_is u.bedrooms n)))))

unfoldable pub find_all :
    (List UnitRow → List UnitRow) → String → UnitFilter → ℤ → ℤ → M (List UnitRow)
find_all order schema o limit offset =
    attempt (select_page units schema (matches o) (λ rows. page_of limit offset (order rows)))
      (λ e. pure [])

unfoldable pub count : String → UnitFilter → M ℕ
count schema o = attempt (count_where units schema (matches o)) (λ e. pure 0)

abbrev pub set_fields : UpdateUnitDto → ℕ → UnitRow → UnitRow
set_fields dto now u = record u {
  unit_number = or_else dto.unit_number u.unit_number;
  floor = or_else dto.floor u.floor;
  area = or_else dto.area u.area;
  bedrooms = or_else dto.bedrooms u.bedrooms;
  bathrooms = or_else dto.bathrooms u.bathrooms;
  price = or_else dto.price u.price;
  is_active = or_else dto.is_active u.is_active;
  updated_at = now;
}

-- Statements that change no key leave the constraints of the table as they are.
abbrev pub unchecked {ℓ} : {A : Type ℓ} → List A → Bool
unchecked rows = true

unfoldable pub update : ℕ → UpdateUnitDto → String → M (Option UnitRow)
unfolding find_by_id has_updates
update id dto schema =
    let set = do
      rows ← update_where units schema (has_id id) unchecked (set_fields dto)
      pure (head? rows)
    in if has_updates dto then set else find_by_id id schema

abbrev pub set_booked : ℕ → ℕ → UnitRow → UnitRow
set_booked user_id now u = record u {
  status = booked;
  booked_by = some user_id;
  booked_at = some now;
  updated_at = now;
}

-- WHERE id = :id AND status = 'Available'
unfoldable pub is_bookable : ℕ → UnitRow → Bool
unfolding has_id
is_bookable id u = has_id id u && status_eq u.status available

unfoldable pub book_unit : ℕ → ℕ → String → M (Option UnitRow)
book_unit id user_id schema = do
  rows ← update_where units schema (is_bookable id) unchecked (set_booked user_id)
  pure (head? rows)

abbrev pub set_sold : ℕ → UnitRow → UnitRow
set_sold now u = record u { status = sold; sold_at = some now; updated_at = now }

-- WHERE id = :id AND status IN ('Available', 'Booked')
unfoldable pub is_sellable : ℕ → UnitRow → Bool
unfolding has_id
is_sellable id u =
    has_id id u && (if status_eq u.status available then true else status_eq u.status booked)

unfoldable pub mark_as_sold : ℕ → String → M (Option UnitRow)
mark_as_sold id schema = do
  rows ← update_where units schema (is_sellable id) unchecked set_sold
  pure (head? rows)

abbrev pub set_inactive : ℕ → UnitRow → UnitRow
set_inactive now u = record u { is_active = false; updated_at = now }

unfoldable pub soft_delete : ℕ → String → M Bool
soft_delete id schema =
    attempt (do rows ← update_where units schema (has_id id) unchecked set_inactive; pure true)
      (λ e. pure false)
