-- ===== src/Units/Controller.antt =====
-- src/modules/units/unit.controller.js: `schema` is `req.tenantSchema`, `id` is `req.params.id`.
use real_estate_multi_tenant.Prelude.{ℕ, ℤ, String, List, Option, none, some}
use real_estate_multi_tenant.Errors.{Error, not_found, bad_request}
use real_estate_multi_tenant.Db.{UnitRow, Db, of_unit, pure, ◌>>=◌}
use real_estate_multi_tenant.Http.{Reply, Handled, send_success, send_created, send_error, respond}
use real_estate_multi_tenant.Units.Dto.{CreateUnitBody, UpdateUnitDto, create_unit_dto}
use real_estate_multi_tenant.Units.Repository.{UnitFilter}
use real_estate_multi_tenant.Units.Service
use real_estate_multi_tenant.Units.Service.{UnitPage}

abbrev pub internal_error : {A : Type 0} → Error → Reply A
internal_error e = send_error e 500

abbrev pub not_found_or_500 : {A : Type 0} → Error → Reply A
not_found_or_500 (not_found m) = send_error (not_found m) 404
not_found_or_500 e = send_error e 500

abbrev pub booking_error : {A : Type 0} → Error → Reply A
booking_error (not_found m) = send_error (not_found m) 404
booking_error (bad_request m) = send_error (bad_request m) 400
booking_error e = send_error e 500

unfoldable pub create_unit : CreateUnitBody → String → Db → Handled UnitRow × Db
create_unit body schema =
    respond
      (do
        unit ← Service.create_unit (create_unit_dto body) schema
        pure (
          send_created unit "Unit created successfully",
          some
              (record { entity_id = unit.id; old_values = none; new_values = some (of_unit unit) }),
        ))
      internal_error

unfoldable pub get_all_units :
    (List UnitRow → List UnitRow)
    → String
    → UnitFilter
    → Option ℤ
    → Option ℤ
    → Db
    → Handled UnitPage × Db
get_all_units order schema o page limit =
    respond
      (do
        result ← Service.get_all_units order schema o page limit
        pure (send_success (some result) "Units retrieved successfully", none))
      internal_error

unfoldable pub get_unit_by_id : ℕ → String → Db → Handled UnitRow × Db
get_unit_by_id id schema =
    respond
      (do
        unit ← Service.get_unit_by_id id schema
        pure (send_success (some unit) "Unit retrieved successfully", none))
      not_found_or_500

unfoldable pub update_unit : ℕ → UpdateUnitDto → String → Db → Handled UnitRow × Db
update_unit id dto schema =
    respond
      (do
        old ← Service.get_unit_by_id id schema
        unit ← Service.update_unit id dto schema
        pure (
          send_success (some unit) "Unit updated successfully",
          some (record {
            entity_id = unit.id;
            old_values = some (of_unit old);
            new_values = some (of_unit unit);
          }),
        ))
      not_found_or_500

unfoldable pub book_unit : ℕ → ℕ → String → Db → Handled UnitRow × Db
book_unit id user_id schema =
    respond
      (do
        old ← Service.get_unit_by_id id schema
        unit ← Service.book_unit id user_id schema
        pure (
          send_success (some unit) "Unit booked successfully",
          some (record {
            entity_id = unit.id;
            old_values = some (of_unit old);
            new_values = some (of_unit unit);
          }),
        ))
      booking_error

unfoldable pub delete_unit : ℕ → String → Db → Handled UnitRow × Db
delete_unit id schema =
    respond
      (do
        old ← Service.get_unit_by_id id schema
        done ← Service.delete_unit id schema
        pure (
          send_success none "Unit deleted successfully",
          some (record { entity_id = id; old_values = some (of_unit old); new_values = none }),
        ))
      not_found_or_500
