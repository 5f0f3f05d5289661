-- ===== src/Units/Abstract.antt =====
-- Units as a client sees them, apart from the code: what a booking does to the rows, which rows a
-- filter lists, and the row that a creation asks for.
use real_estate_multi_tenant.Prelude.{
  ℕ, zero, suc, ◌≡◌, ◌≤◌, refl, ℤ, pos, Bool, true, false, List, [], ◌∷◌, Option, none, some, ◌==◌,
  filter, head?, inl, inr, Bool-cases, if◌then◌else◌,
}
use real_estate_multi_tenant.Errors.{not_found, bad_request}
use real_estate_multi_tenant.Db.{
  UnitStatus, available, booked, sold, UnitRow, Result, ok, err, set_rows,
}
use real_estate_multi_tenant.Units.Dto.{CreateUnitBody}
use real_estate_multi_tenant.Units.Repository.{
  status_eq, has_id, is_bookable, set_booked, UnitFilter,
}

-- The first unit with an id.
abbrev pub unit_with : ℕ → List UnitRow → Option UnitRow
unit_with id [] = none
unit_with id (u ∷ us) = if u.id == id then some u else unit_with id us

-- A unit that is booked for a user: only the status, the booking and the time of the change differ.
abbrev pub booked_for : ℕ → ℕ → UnitRow → UnitRow
booked_for user_id now u = record {
  id = u.id;
  project_id = u.project_id;
  unit_number = u.unit_number;
  floor = u.floor;
  area = u.area;
  bedrooms = u.bedrooms;
  bathrooms = u.bathrooms;
  price = u.price;
  status = booked;
  booked_by = some user_id;
  booked_at = some now;
  sold_at = u.sold_at;
  is_active = u.is_active;
  created_at = u.created_at;
  updated_at = now;
}

abbrev pub booked_if_free : ℕ → ℕ → UnitStatus → UnitRow → UnitRow
booked_if_free user_id now available u = booked_for user_id now u
booked_if_free user_id now booked u = u
booked_if_free user_id now sold u = u

-- The rows in which the available units with an id are booked.
abbrev pub booked_rows : ℕ → ℕ → ℕ → List UnitRow → List UnitRow
booked_rows id user_id now [] = []
booked_rows id user_id now (u ∷ us) =
    (if u.id == id then booked_if_free user_id now u.status u else u)
    ∷ booked_rows id user_id now us

abbrev pub booking_by :
    UnitStatus → ℕ → ℕ → ℕ → UnitRow → List UnitRow → Result UnitRow × List UnitRow
booking_by available id user_id now u rows =
    (ok (booked_for user_id now u), booked_rows id user_id now rows)
booking_by booked id user_id now u rows =
    (err (bad_request "Unit is Booked and cannot be booked"), rows)
booking_by sold id user_id now u rows =
    (err (bad_request "Unit is Sold and cannot be booked"), rows)

-- A booking: the answer, and the rows that it leaves.
abbrev pub booking_of : ℕ → ℕ → ℕ → Option UnitRow → List UnitRow → Result UnitRow × List UnitRow
booking_of id user_id now none rows = (err (not_found "Unit not found"), rows)
booking_of id user_id now (some u) rows = booking_by u.status id user_id now u rows

pub first-unit_with :
    (id : ℕ) (rows : List UnitRow) → head? (filter (has_id id) rows) ≡ unit_with id rows
unfolding has_id filter
first-unit_with id [] = refl
first-unit_with id (u ∷ us) = elim (Bool-cases (u.id == id)) [
  | inl hit ↦ rw hit
  | inr miss ↦ rw miss (first-unit_with id us)
]

set_booked-eq :
    (user_id now : ℕ) (st : UnitStatus) (u : UnitRow)
    → (if status_eq st available then set_booked user_id now u else u)
      ≡ booked_if_free user_id now st u
set_booked-eq user_id now available u = refl
set_booked-eq user_id now booked u = refl
set_booked-eq user_id now sold u = refl

pub set_rows-booked :
    (id user_id now : ℕ) (rows : List UnitRow)
    → set_rows (is_bookable id) (set_booked user_id now) rows ≡ booked_rows id user_id now rows
unfolding is_bookable has_id
set_rows-booked id user_id now [] = refl
set_rows-booked id user_id now (u ∷ us) = elim (Bool-cases (u.id == id)) [
  | inl hit ↦ rw (hit, set_booked-eq user_id now u.status u, set_rows-booked id user_id now us) refl
  | inr miss ↦ rw (miss, set_rows-booked id user_id now us) refl
]

-- A condition on a unit holds of an option that is given, and one that is not given asks for nothing.
abbrev pub Given {ℓ} : {A : Type ℓ} → Option A → (A → Type 0) → Type 0
Given none P = Unit
Given (some a) P = P a

abbrev pub GivenTrue : Bool → Type 0 → Type 0
GivenTrue false P = Unit
GivenTrue true P = P

-- What a filter asks of a unit.
pub record Meets (o : UnitFilter) (u : UnitRow) : Type 0 where
  pub active : GivenTrue o.active_only (u.is_active ≡ true)
  pub project : Given o.project_id (λ id. u.project_id ≡ id)
  pub status : Given o.status (λ st. u.status ≡ st)
  pub low : Given o.min_price (λ low. low ≤ u.price)
  pub high : Given o.max_price (λ high. u.price ≤ high)
  pub bedrooms : Given o.bedrooms (λ n. u.bedrooms ≡ some n)

-- A number that is given and is not 0.
abbrev pub positive : Option ℕ → Option ℕ
positive none = none
positive (some zero) = none
positive (some (suc n)) = some (suc n)

-- A floor that is given and is not 0.
abbrev pub off_ground : Option ℤ → Option ℤ
off_ground none = none
off_ground (some (pos zero)) = none
off_ground (some (pos (suc n))) = some (pos (suc n))
off_ground (some (ℤ.negsuc n)) = some (ℤ.negsuc n)

-- The row that a creation asks for: available, active and not booked, with the fields of the body; a
-- floor and numbers of rooms that are 0 are left out.
abbrev pub requested : CreateUnitBody → ℕ → ℕ → UnitRow
requested body id now = record {
  id = id;
  project_id = body.project_id;
  unit_number = body.unit_number;
  floor = off_ground body.floor;
  area = body.area;
  bedrooms = positive body.bedrooms;
  bathrooms = positive body.bathrooms;
  price = body.price;
  status = available;
  booked_by = none;
  booked_at = none;
  sold_at = none;
  is_active = true;
  created_at = now;
  updated_at = now;
}
