-- ===== src/Units/Dto.antt =====
-- src/modules/units/dto: the bodies of requests as they pass validation, and the DTOs.
use real_estate_multi_tenant.Prelude.{
  ℕ, zero, ℤ, pos, String, Bool, Option, none, some, ◌||◌, is_some,
}
use real_estate_multi_tenant.Errors.{type_error}
use real_estate_multi_tenant.Db.{UnitStatus, available, UnitRow, Result, ok, err}

-- `req.body` of a creation. A field that is undefined and one that is null are both `none`.
pub record CreateUnitBody : Type 0 where
  pub project_id : ℕ
  pub unit_number : String
  pub floor : Option ℤ
  pub area : ℕ
  pub bedrooms : Option ℕ
  pub bathrooms : Option ℕ
  pub price : ℕ

pub record CreateUnitDto : Type 0 where
  pub project_id : ℕ
  pub unit_number : String
  pub floor : Option ℤ
  pub area : ℕ
  pub bedrooms : Option ℕ
  pub bathrooms : Option ℕ
  pub price : ℕ
  pub status : UnitStatus

-- `x || null` at a number: 0 is falsy.
unfoldable pub int_or_null : Option ℤ → Option ℤ
int_or_null (some (pos zero)) = none
int_or_null x = x

unfoldable pub nat_or_null : Option ℕ → Option ℕ
nat_or_null (some zero) = none
nat_or_null x = x

unfoldable pub create_unit_dto : CreateUnitBody → CreateUnitDto
unfolding int_or_null nat_or_null
create_unit_dto body = record {
  project_id = body.project_id;
  unit_number = body.unit_number;
  floor = int_or_null body.floor;
  area = body.area;
  bedrooms = nat_or_null body.bedrooms;
  bathrooms = nat_or_null body.bathrooms;
  price = body.price;
  status = available;
}

-- A field is `none` where the DTO lacks it; a nullable column may also be set to null.
pub record UpdateUnitDto : Type 0 where
  pub unit_number : Option String
  pub floor : Option (Option ℤ)
  pub area : Option ℕ
  pub bedrooms : Option (Option ℕ)
  pub bathrooms : Option (Option ℕ)
  pub price : Option ℕ
  pub is_active : Option Bool

-- `Object.keys(this).length > 0`
unfoldable pub has_updates : UpdateUnitDto → Bool
has_updates dto =
    is_some dto.unit_number
    || (is_some dto.floor
        || (is_some dto.area
            || (is_some dto.bedrooms
                || (is_some dto.bathrooms || (is_some dto.price || is_some dto.is_active)))))

-- `new UnitResponseDto(unit)` copies the columns of a row; `null` has no `get`.
unfoldable pub unit_response : Option UnitRow → Result UnitRow
unit_response none = err type_error
unit_response (some u) = ok (record {
  id = u.id;
  project_id = u.project_id;
  unit_number = u.unit_number;
  floor = u.floor;
  area = u.area;
  bedrooms = u.bedrooms;
  bathrooms = u.bathrooms;
  price = u.price;
  status = u.status;
  booked_by = u.booked_by;
  booked_at = u.booked_at;
  sold_at = u.sold_at;
  is_active = u.is_active;
  created_at = u.created_at;
  updated_at = u.updated_at;
})
