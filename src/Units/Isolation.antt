-- ===== src/Units/Isolation.antt =====
-- A request to the units touches the schema of its user and no other.
use real_estate_multi_tenant.Prelude.{String, ◌≢◌, Bool, List, some}
use real_estate_multi_tenant.Db.{UnitRow, Db}
use real_estate_multi_tenant.Db.Confined.{
  Elsewhere, Elsewhere-preorder, Confined-insert, Confined-update, units-IsLocal,
  audit_logs-IsLocal,
}
use real_estate_multi_tenant.Access.Request.{Verified, Request}
use real_estate_multi_tenant.Access.Isolation.{Logging-anything, request_schema}
use real_estate_multi_tenant.Access.Scoped.{Untouched, scoped-Untouched}
use real_estate_multi_tenant.Units.Dto.{create_unit_dto}
use real_estate_multi_tenant.Units.Repository.{
  refers, new_row, has_id, unchecked, set_fields, is_bookable, set_booked, is_sellable, set_sold,
  set_inactive,
}
use real_estate_multi_tenant.Units.Routes.{UnitCall, unit_route, handle}
use real_estate_multi_tenant.Units.Actions.{UnitWrites, unit_route-Keeps}

confined_writes : (schema : String) → UnitWrites (Elsewhere schema) schema
confined_writes schema = record {
  inserting =
      λ body. Confined-insert units-IsLocal schema (refers schema) (new_row (create_unit_dto body));
  setting = λ id dto. Confined-update units-IsLocal schema (has_id id) unchecked (set_fields dto);
  booking = λ id user_id.
      Confined-update units-IsLocal schema (is_bookable id) unchecked (set_booked user_id);
  selling = λ id. Confined-update units-IsLocal schema (is_sellable id) unchecked set_sold;
  deleting = λ id. Confined-update units-IsLocal schema (has_id id) unchecked set_inactive;
  logging =
      Logging-anything (Elsewhere-preorder schema) schema
        λ s t. audit_logs-IsLocal.local schema t s;
}

-- Whatever a request to the units asks for, and whichever statements fail, it leaves the tenants
-- and every table of each schema but its user's own as they were. The schema of a request is that
-- of its verified token, `public` for a Super Admin, and none where there is no verified token.
pub handle-Untouched :
    (order : List UnitRow → List UnitRow) (req : Request) (valid : Bool)
    (verify : String → Verified) (call : UnitCall) (other : String) (s : Db)
    → request_schema verify req ≢ some other
    → Untouched other s (handle order req valid verify call s).1
unfolding handle
handle-Untouched order req valid verify call other s n =
    scoped-Untouched (unit_route order req valid call) other verify req
      (λ user scope.
        unit_route-Keeps (Elsewhere-preorder scope.tenant_schema) order req valid call user scope
          (confined_writes scope.tenant_schema))
      n s
