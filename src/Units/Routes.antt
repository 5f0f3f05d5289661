-- ===== src/Units/Routes.antt =====
-- src/modules/units/unit.routes.js: `valid` is the answer of the validation schema of the route.
use real_estate_multi_tenant.Prelude.{ℕ, ℤ, String, Bool, List, Option}
use real_estate_multi_tenant.Db.{UnitRow}
use real_estate_multi_tenant.Access.Roles.{Action}
use real_estate_multi_tenant.Access.Roles
use real_estate_multi_tenant.Access.Request.{Verified, Request, AuthUser, Scope}
use real_estate_multi_tenant.Access.Pipeline.{
  Handler, scoped, admin_route, member_route, audited, plain, with_body,
}
use real_estate_multi_tenant.Units.Dto.{CreateUnitBody, UpdateUnitDto}
use real_estate_multi_tenant.Units.Repository.{UnitFilter}
use real_estate_multi_tenant.Units.Service.{UnitPage}
use real_estate_multi_tenant.Units.Controller

pub data UnitCall : Type 0 where
  create_call : CreateUnitBody → UnitCall
  list_call : UnitFilter → Option ℤ → Option ℤ → UnitCall
  get_call : ℕ → UnitCall
  update_call : ℕ → UpdateUnitDto → UnitCall
  book_call : ℕ → UnitCall
  delete_call : ℕ → UnitCall

-- The data of a reply: a unit, or a page of the listing.
pub data UnitBody : Type 0 where
  one : UnitRow → UnitBody
  many : UnitPage → UnitBody

module _ (order : List UnitRow → List UnitRow) (req : Request) (valid : Bool) where
  unfoldable pub unit_route : UnitCall → AuthUser → Scope → Handler UnitBody
  unit_route (create_call body) user scope = admin_route valid Roles.units Roles.create user (
      with_body one
        (audited "unit" "CREATE" req user scope (Controller.create_unit body scope.tenant_schema)))
  unit_route (list_call filter page limit) user scope =
      member_route valid Roles.units Roles.read user (
        with_body many
          (plain (Controller.get_all_units order scope.tenant_schema filter page limit)))
  unit_route (get_call id) user scope =
      member_route valid Roles.units Roles.read user
        (with_body one (plain (Controller.get_unit_by_id id scope.tenant_schema)))
  unit_route (update_call id dto) user scope = admin_route valid Roles.units Roles.update user (
      with_body one (
        audited "unit" "UPDATE" req user scope (Controller.update_unit id dto scope.tenant_schema)))
  unit_route (book_call id) user scope = member_route valid Roles.units Roles.book user (
      with_body one (
        audited "unit" "BOOK" req user scope (Controller.book_unit id user.id scope.tenant_schema)))
  unit_route (delete_call id) user scope = admin_route valid Roles.units Roles.delete user (
      with_body one
        (audited "unit" "DELETE" req user scope (Controller.delete_unit id scope.tenant_schema)))

  -- The router of the units: every route stands behind authentication and the tenant resolver.
  unfoldable pub handle : (String → Verified) → UnitCall → Handler UnitBody
  handle verify call = scoped verify req (unit_route call)
