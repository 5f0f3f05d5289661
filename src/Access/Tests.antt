-- ===== src/Access/Tests.antt =====
-- The theorems on the middleware at concrete inputs: one active tenant, and a user of it.
use real_estate_multi_tenant.Prelude.{◌≡◌, refl, ◌↔◌, true, false, [], ◌∷◌, none, some}
use real_estate_multi_tenant.Db.{TenantRow, Db}
use real_estate_multi_tenant.Db.Returns.{OkHolds}
use real_estate_multi_tenant.Access.Roles.{units, book, sales, has_permission}
use real_estate_multi_tenant.Access.Request.{AuthUser}
use real_estate_multi_tenant.Access.TenantResolver.{tenant_resolver}
use real_estate_multi_tenant.Access.Permissions.{Granted, has_permission_iff}
use real_estate_multi_tenant.Access.ActiveTenant.{Lets, tenant_resolver-Admitted}

abbrev tenant : TenantRow
tenant = record {
  id = 1;
  name = "Lake Homes";
  contact = "office@lake.example";
  subscription_type = "Basic";
  schema_name = "tenant_1";
  is_active = true;
  created_at = 1;
  updated_at = 1;
}

abbrev start : Db
start = record {
  schemas = "public" ∷ [];
  tenants = record { rows = tenant ∷ []; next = 2 };
  users = λ name. none;
  projects = λ name. none;
  units = λ name. none;
  audit_logs = λ name. none;
  indexes = λ name. [];
  search_path = "public";
  statements = 0;
  fails = λ n. false;
  reason = λ n. "";
  time = λ n. n;
}

abbrev sam : AuthUser
sam = record {
  id = 7;
  email = "sam@lake.example";
  role = some sales;
  tenant_id = some 1;
  tenant_schema = some "tenant_1";
}

has_permission_iff_example : (has_permission sales units book ≡ true) ↔ Granted sales units book
has_permission_iff_example = has_permission_iff sales units book

tenant_resolver-Admitted_example : OkHolds (Lets sam start) (tenant_resolver sam start).0
tenant_resolver-Admitted_example = tenant_resolver-Admitted sam start refl
