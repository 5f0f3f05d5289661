-- ===== src/Units/Actions.antt =====
-- Every action of the units module keeps to a preorder on states if its five writes do: the services,
-- the controllers and the routes are followed once, for each property of the states.
use real_estate_multi_tenant.Prelude.{
  ℕ, ℤ, String, Bool, List, Option, none, some, head?, true, false,
}
use real_estate_multi_tenant.Errors.{Error}
use real_estate_multi_tenant.Db.{UnitRow, Db, units, pure, insert_into, update_where}
use real_estate_multi_tenant.Db.Respects.{
  Preorder, Respects, Respects-if, Respects-bind, Respects-pure, Respects-attempt, respects_rules,
}
use real_estate_multi_tenant.Access.Request.{Verified, Request, AuthUser, Scope}
use real_estate_multi_tenant.Access.Isolation.{Logging}
use real_estate_multi_tenant.Access.Scoped.{
  Keeps, Contained, Contained-respond, Keeps-admin_route, Keeps-member_route, Keeps-audited,
  Keeps-plain, Keeps-with_body, Keeps-scoped,
}
use real_estate_multi_tenant.Units.Dto.{CreateUnitBody, UpdateUnitDto, create_unit_dto, has_updates}
use real_estate_multi_tenant.Units.Repository
use real_estate_multi_tenant.Units.Repository.{
  UnitFilter, refers, new_row, has_id, unchecked, set_fields, is_bookable, set_booked, is_sellable,
  set_sold, set_inactive,
}
use real_estate_multi_tenant.Units.Service
use real_estate_multi_tenant.Units.Controller
use real_estate_multi_tenant.Units.Routes.{
  UnitCall, create_call, list_call, get_call, update_call, book_call, delete_call, one, many,
  unit_route, handle,
}

-- The statements of the repository that write, in one schema, and the write of the audit log.
pub record UnitWrites (R : Db → Db → Type 0) (schema : String) : Type 0 where
  pub inserting :
      (body : CreateUnitBody)
      → Respects R (insert_into units schema (refers schema) (new_row (create_unit_dto body)))
  pub setting :
      (id : ℕ) (dto : UpdateUnitDto)
      → Respects R (update_where units schema (has_id id) unchecked (set_fields dto))
  pub booking :
      (id user_id : ℕ)
      → Respects R (update_where units schema (is_bookable id) unchecked (set_booked user_id))
  pub selling :
      (id : ℕ) → Respects R (update_where units schema (is_sellable id) unchecked set_sold)
  pub deleting :
      (id : ℕ) → Respects R (update_where units schema (has_id id) unchecked set_inactive)
  pub logging : Logging R schema

module _ {R : Db → Db → Type 0} (P : Preorder R) (schema : String) (W : UnitWrites R schema) where
  find_by_id-Respects : (id : ℕ) → Respects R (Repository.find_by_id id schema)
  unfolding Repository.find_by_id
  find_by_id-Respects id = search (P, respects_rules)

  update-Respects : (id : ℕ) (dto : UpdateUnitDto) → Respects R (Repository.update id dto schema)
  unfolding Repository.update
  update-Respects id dto =
      Respects-if P (has_updates dto) _ _
        (Respects-bind P _ _ (W.setting id dto) (λ rows. Respects-pure P (head? rows)))
        (find_by_id-Respects id)

  pub book_unit-Respects : (id user_id : ℕ) → Respects R (Repository.book_unit id user_id schema)
  unfolding Repository.book_unit
  book_unit-Respects id user_id = search (P, respects_rules, W.booking id user_id)

  mark_as_sold-Respects : (id : ℕ) → Respects R (Repository.mark_as_sold id schema)
  unfolding Repository.mark_as_sold
  mark_as_sold-Respects id = search (P, respects_rules, W.selling id)

  soft_delete-Respects : (id : ℕ) → Respects R (Repository.soft_delete id schema)
  unfolding Repository.soft_delete
  soft_delete-Respects id =
      Respects-attempt P _ (λ e. pure false)
        (Respects-bind P _ _ (W.deleting id) (λ rows. Respects-pure P true))
        (λ e. Respects-pure P false)

  found-Respects : (unit : Option UnitRow) → Respects R (Service.found unit)
  unfolding Service.found
  found-Respects none = search (P, respects_rules)
  found-Respects (some unit) = search (P, respects_rules)

  booking_result-Respects :
      (lost : Error) (unit : Option UnitRow) → Respects R (Service.booking_result lost unit)
  unfolding Service.booking_result
  booking_result-Respects lost none = search (P, respects_rules)
  booking_result-Respects lost (some unit) = search (P, respects_rules)

  ruleset unit_rules = (
    respects_rules, find_by_id-Respects, update-Respects, book_unit-Respects, mark_as_sold-Respects,
    soft_delete-Respects, found-Respects, booking_result-Respects,
  )

  create_unit-Respects :
      (body : CreateUnitBody) → Respects R (Service.create_unit (create_unit_dto body) schema)
  unfolding Service.create_unit Repository.create
  create_unit-Respects body = search (P, unit_rules, W.inserting body)

  get_all_units-Respects :
      (order : List UnitRow → List UnitRow) (o : UnitFilter) (page limit : Option ℤ)
      → Respects R (Service.get_all_units order schema o page limit)
  unfolding Service.get_all_units Repository.find_all Repository.count
  get_all_units-Respects order o page limit = search (P, unit_rules)

  get_unit_by_id-Respects : (id : ℕ) → Respects R (Service.get_unit_by_id id schema)
  unfolding Service.get_unit_by_id
  get_unit_by_id-Respects id = search (P, unit_rules)

  update_unit-Respects :
      (id : ℕ) (dto : UpdateUnitDto) → Respects R (Service.update_unit id dto schema)
  unfolding Service.update_unit
  update_unit-Respects id dto = search (P, unit_rules) depth 8

  pub check_available-Respects : (id : ℕ) → Respects R (Service.check_available id schema)
  unfolding Service.check_available
  check_available-Respects id = search (P, unit_rules)

  pub book_service-Respects : (id user_id : ℕ) → Respects R (Service.book_unit id user_id schema)
  unfolding Service.book_unit
  book_service-Respects id user_id = search (P, unit_rules, check_available-Respects)

  pub sell_service-Respects : (id : ℕ) → Respects R (Service.mark_as_sold id schema)
  unfolding Service.mark_as_sold
  sell_service-Respects id = search (P, unit_rules) depth 8

  delete_unit-Respects : (id : ℕ) → Respects R (Service.delete_unit id schema)
  unfolding Service.delete_unit
  delete_unit-Respects id = search (P, unit_rules) depth 8

  ruleset service_rules = (
    respects_rules, Contained-respond, create_unit-Respects, get_all_units-Respects,
    get_unit_by_id-Respects, update_unit-Respects, book_service-Respects, delete_unit-Respects,
  )

  create_unit-Contained : (body : CreateUnitBody) → Contained R (Controller.create_unit body schema)
  unfolding Controller.create_unit
  create_unit-Contained body = search (P, service_rules)

  get_all_units-Contained :
      (order : List UnitRow → List UnitRow) (o : UnitFilter) (page limit : Option ℤ)
      → Contained R (Controller.get_all_units order schema o page limit)
  unfolding Controller.get_all_units
  get_all_units-Contained order o page limit = search (P, service_rules)

  get_unit_by_id-Contained : (id : ℕ) → Contained R (Controller.get_unit_by_id id schema)
  unfolding Controller.get_unit_by_id
  get_unit_by_id-Contained id = search (P, service_rules)

  update_unit-Contained :
      (id : ℕ) (dto : UpdateUnitDto) → Contained R (Controller.update_unit id dto schema)
  unfolding Controller.update_unit
  update_unit-Contained id dto = search (P, service_rules)

  book_unit-Contained : (id user_id : ℕ) → Contained R (Controller.book_unit id user_id schema)
  unfolding Controller.book_unit
  book_unit-Contained id user_id = search (P, service_rules)

  delete_unit-Contained : (id : ℕ) → Contained R (Controller.delete_unit id schema)
  unfolding Controller.delete_unit
  delete_unit-Contained id = search (P, service_rules)

module _ {R : Db → Db → Type 0} (P : Preorder R) where
  module _ (order : List UnitRow → List UnitRow) (req : Request) (valid : Bool) where
    pub unit_route-Keeps :
        (call : UnitCall) (user : AuthUser) (scope : Scope)
        → UnitWrites R scope.tenant_schema
        → Keeps R (unit_route order req valid call user scope)
    unfolding unit_route
    unit_route-Keeps (create_call body) user scope W = Keeps-admin_route P _ _ _ user _ (
        Keeps-with_body P one _
          (Keeps-audited P _ _ req user scope _ W.logging (create_unit-Contained P _ W body)))
    unit_route-Keeps (list_call filter page limit) user scope W =
        Keeps-member_route P _ _ _ user _ (
          Keeps-with_body P many _
            (Keeps-plain P _ (get_all_units-Contained P _ W order filter page limit)))
    unit_route-Keeps (get_call id) user scope W =
        Keeps-member_route P _ _ _ user _
          (Keeps-with_body P one _ (Keeps-plain P _ (get_unit_by_id-Contained P _ W id)))
    unit_route-Keeps (update_call id dto) user scope W = Keeps-admin_route P _ _ _ user _ (
        Keeps-with_body P one _
          (Keeps-audited P _ _ req user scope _ W.logging (update_unit-Contained P _ W id dto)))
    unit_route-Keeps (book_call id) user scope W = Keeps-member_route P _ _ _ user _ (
        Keeps-with_body P one _
          (Keeps-audited P _ _ req user scope _ W.logging (book_unit-Contained P _ W id user.id)))
    unit_route-Keeps (delete_call id) user scope W = Keeps-admin_route P _ _ _ user _ (
        Keeps-with_body P one _
          (Keeps-audited P _ _ req user scope _ W.logging (delete_unit-Contained P _ W id)))

    pub handle-Keeps :
        (verify : String → Verified) (call : UnitCall)
        → ((schema : String) → UnitWrites R schema)
        → Keeps R (handle order req valid verify call)
    unfolding handle
    handle-Keeps verify call W =
        Keeps-scoped P verify req _ (λ user scope. unit_route-Keeps call user scope (W _))
