-- ===== src/Units/Service.antt =====
-- src/modules/units/unit.service.js
use Prim.Native.String
use real_estate_multi_tenant.Prelude.{ℕ, ℤ, pos, String, List, Option, none, some, if◌then◌else◌}
use real_estate_multi_tenant.Errors.{Error, not_found, bad_request}
use real_estate_multi_tenant.Db.{
  UnitStatus, available, booked, sold, UnitRow, M, pure, raise, lift, ◌>>=◌,
}
use real_estate_multi_tenant.Paging.{or_default, offset_of}
use real_estate_multi_tenant.Units.Dto.{CreateUnitDto, UpdateUnitDto, has_updates, unit_response}
use real_estate_multi_tenant.Units.Repository
use real_estate_multi_tenant.Units.Repository.{UnitFilter, status_eq}

unfoldable pub create_unit : CreateUnitDto → String → M UnitRow
create_unit dto schema = do unit ← Repository.create dto schema; lift (unit_response (some unit))

pub record UnitPage : Type 0 where
  pub units : List UnitRow
  pub total : ℕ
  pub page : ℤ
  pub limit : ℤ

unfoldable pub get_all_units :
    (List UnitRow → List UnitRow) → String → UnitFilter → Option ℤ → Option ℤ → M UnitPage
get_all_units order schema o page_option limit_option = do
  let page = or_default page_option (pos 1)
  let limit = or_default limit_option (pos 10)
  rows ← Repository.find_all order schema o limit (offset_of page limit)
  total ← Repository.count schema o
  pure (record { units = rows; total = total; page = page; limit = limit })

-- `if (!unit) throw new NotFoundError(…)`
unfoldable pub found : Option UnitRow → M UnitRow
found none = raise (not_found "Unit not found")
found (some unit) = pure unit

unfoldable pub get_unit_by_id : ℕ → String → M UnitRow
unfolding found
get_unit_by_id id schema = do
  unit ← Repository.find_by_id id schema
  u ← found unit
  lift (unit_response (some u))

unfoldable pub update_unit : ℕ → UpdateUnitDto → String → M UnitRow
unfolding found
update_unit id dto schema = do
  unit ← Repository.find_by_id id schema
  existing ← found unit
  let save = do updated ← Repository.update id dto schema; lift (unit_response updated)
  if has_updates dto then save else lift (unit_response (some existing))

abbrev pub status_name : UnitStatus → String
status_name available = "Available"
status_name booked = "Booked"
status_name sold = "Sold"

abbrev pub cannot_be_booked : UnitStatus → String
cannot_be_booked status =
    String.◌++◌ "Unit is " (String.◌++◌ (status_name status) " and cannot be booked")

abbrev pub booking_lost : Error
booking_lost = bad_request "Failed to book unit. It may have been booked by someone else."

-- The reply to the result of the conditional update.
unfoldable pub booking_result : Error → Option UnitRow → M UnitRow
booking_result lost none = raise lost
booking_result lost (some unit) = lift (unit_response (some unit))

-- The checks before the update.
unfoldable pub check_available : ℕ → String → M UnitRow
unfolding found
check_available id schema = do
  unit ← Repository.find_by_id id schema
  u ← found unit
  if status_eq u.status available then pure u else raise (bad_request (cannot_be_booked u.status))

unfoldable pub book_unit : ℕ → ℕ → String → M UnitRow
unfolding check_available booking_result
book_unit id user_id schema = do
  unit ← check_available id schema
  result ← Repository.book_unit id user_id schema
  booking_result booking_lost result

unfoldable pub mark_as_sold : ℕ → String → M UnitRow
unfolding found booking_result
mark_as_sold id schema = do
  unit ← Repository.find_by_id id schema
  u ← found unit
  let sell = do
    result ← Repository.mark_as_sold id schema
    booking_result (bad_request "Failed to mark unit as sold") result
  if status_eq u.status sold then lift (unit_response (some u)) else sell

unfoldable pub delete_unit : ℕ → String → M (Unit {0})
unfolding found
delete_unit id schema = do
  unit ← Repository.find_by_id id schema
  u ← found unit
  done ← Repository.soft_delete id schema
  pure tt
