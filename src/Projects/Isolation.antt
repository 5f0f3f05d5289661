-- ===== src/Projects/Isolation.antt =====
-- The routes under /projects stay in their tenant's schema.
use real_estate_multi_tenant.Prelude.{◌≢◌, String, Bool, List, some}
use real_estate_multi_tenant.Db.{ProjectRow, Db}
use real_estate_multi_tenant.Db.Confined.{
  Elsewhere, Elsewhere-preorder, Confined-insert, Confined-update, projects-IsLocal,
  audit_logs-IsLocal,
}
use real_estate_multi_tenant.Access.Request.{Verified, Request}
use real_estate_multi_tenant.Access.Isolation.{Logging-anything, request_schema}
use real_estate_multi_tenant.Access.Scoped.{Untouched, scoped-Untouched}
use real_estate_multi_tenant.Projects.Repository.{
  accepts, new_row, has_id, still_accepts, set_fields, unchecked, set_inactive,
}
use real_estate_multi_tenant.Projects.Routes.{ProjectCall, project_route, projects_handle}
use real_estate_multi_tenant.Projects.Actions.{ProjectWrites, project_route-Keeps}

confined_writes : (schema : String) → ProjectWrites (Elsewhere schema) schema
confined_writes schema = record {
  inserting = λ dto. Confined-insert projects-IsLocal schema (accepts dto) (new_row dto);
  setting =
      λ id dto. Confined-update projects-IsLocal schema (has_id id) still_accepts (set_fields dto);
  deleting = λ id. Confined-update projects-IsLocal schema (has_id id) unchecked set_inactive;
  logging =
      Logging-anything (Elsewhere-preorder schema) schema
        λ s t. audit_logs-IsLocal.local schema t s;
}

-- Whatever a request under /projects asks for, and whichever statements fail, it leaves the tenants and
-- every table of each schema but the one that its verified token gives as they were.
pub projects_handle-Untouched :
    (order : List ProjectRow → List ProjectRow) (req : Request) (passes : Bool)
    (verify : String → Verified) (call : ProjectCall) (other : String) (s : Db)
    → request_schema verify req ≢ some other
    → Untouched other s (projects_handle order req passes verify call s).1
unfolding projects_handle
projects_handle-Untouched order req passes verify call other s n =
    scoped-Untouched (project_route order req passes call) other verify req
      (λ user scope.
        project_route-Keeps (Elsewhere-preorder scope.tenant_schema) order req passes call user
          scope (confined_writes scope.tenant_schema))
      n s
