-- ===== src/Users/Isolation.antt =====
-- The routes under /users stay in their tenant's schema.
use real_estate_multi_tenant.Prelude.{ℕ, ◌≢◌, String, Bool, List, some}
use real_estate_multi_tenant.Db.{UserRow, Db}
use real_estate_multi_tenant.Db.Confined.{
  Elsewhere, Elsewhere-preorder, Confined-insert, Confined-update, users-IsLocal,
  audit_logs-IsLocal,
}
use real_estate_multi_tenant.Access.Request.{Verified, Request}
use real_estate_multi_tenant.Access.Isolation.{Logging-anything, request_schema}
use real_estate_multi_tenant.Access.Scoped.{Untouched, scoped-Untouched}
use real_estate_multi_tenant.Users.Repository.{
  accepts, new_row, has_id, still_accepts, set_fields, unchecked, set_inactive,
}
use real_estate_multi_tenant.Users.Routes.{UserCall, user_route, users_handle}
use real_estate_multi_tenant.Users.Actions.{UserWrites, user_route-Keeps}

confined_writes :
    (hash : ℕ → String → String) (schema : String) → UserWrites hash (Elsewhere schema) schema
confined_writes hash schema = record {
  inserting = λ dto h. Confined-insert users-IsLocal schema (accepts schema) (new_row dto h);
  setting = λ id salt dto.
      Confined-update users-IsLocal schema (has_id id) (still_accepts schema)
        (set_fields hash salt dto);
  deleting = λ id. Confined-update users-IsLocal schema (has_id id) unchecked set_inactive;
  logging =
      Logging-anything (Elsewhere-preorder schema) schema
        λ s t. audit_logs-IsLocal.local schema t s;
}

-- Whatever a request under /users asks for, and whichever statements fail, it leaves the tenants and
-- every table of each schema but the one that its verified token gives as they were.
pub users_handle-Untouched :
    (hash : ℕ → String → String) (order : List UserRow → List UserRow) (req : Request)
    (passes : Bool) (verify : String → Verified) (call : UserCall) (other : String) (s : Db)
    → request_schema verify req ≢ some other
    → Untouched other s (users_handle hash order req passes verify call s).1
unfolding users_handle
users_handle-Untouched hash order req passes verify call other s n =
    scoped-Untouched (user_route hash order req passes call) other verify req
      (λ user scope.
        user_route-Keeps (Elsewhere-preorder scope.tenant_schema) order req passes call user scope
          (confined_writes hash scope.tenant_schema))
      n s
