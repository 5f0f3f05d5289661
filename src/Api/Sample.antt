-- ===== src/Api/Sample.antt =====
-- A database with two tenants, of which one is active and has a user, a project and a unit, and
-- requests to it.
use real_estate_multi_tenant.Prelude.{
  ℕ, ◌+◌, is_some, refl, String, Bool, true, false, List, [], ◌∷◌, Option, none, some, inl, inr,
  str_eq, arith, Bool-cases, any, pos, if◌then◌else◌, decimal,
}
use real_estate_multi_tenant.Db.{
  TenantRow, UserRow, ProjectRow, UnitRow, available, Table, Db, Result, ok,
}
use real_estate_multi_tenant.Db.Healthy.{Healthy}
use real_estate_multi_tenant.Access.Roles.{super_admin, admin}
use real_estate_multi_tenant.Access.Request.{
  Payload, Verified, valid, json_web_token_error, Request,
}
use real_estate_multi_tenant.Schemas.Manager.{generate_schema_name}
use real_estate_multi_tenant.Schemas.Migrations.{
  Migration, users_table, projects_table, units_table, audit_logs_table,
}
use real_estate_multi_tenant.Tenants.Dto.{CreateTenantDto}
use real_estate_multi_tenant.Tenants.Routes.{TenantCall, tenants_handle}
use real_estate_multi_tenant.Tenants.Routes
use real_estate_multi_tenant.Tenants.Sound.{Sound, TenantsSound}
use real_estate_multi_tenant.Projects.Routes.{ProjectCall, create_call}
use real_estate_multi_tenant.Units.Routes.{book_call}
use real_estate_multi_tenant.Units.Invariant.{TableValid}
use real_estate_multi_tenant.Stats.Controller.{Floats}
use real_estate_multi_tenant.Api.Routes.{Outside, ApiRequest, of_tenants, of_projects, of_units}
use real_estate_multi_tenant.Api.WellFormed.{WellFormed}

abbrev pub tenant_of : ℕ → String → Bool → TenantRow
tenant_of id schema on = record {
  id = id;
  name = "Lake Homes";
  contact = "office@lake.example";
  subscription_type = "Basic";
  schema_name = schema;
  is_active = on;
  created_at = 1;
  updated_at = 1;
}

abbrev pub ada_row : UserRow
ada_row = record {
  id = 1;
  tenant_id = some 1;
  name = "Ada";
  email = "ada@lake.example";
  password_hash = "secret-hash";
  role = admin;
  is_active = true;
  created_at = 1;
  updated_at = 1;
}

abbrev pub project : ProjectRow
project = record {
  id = 1;
  tenant_id = 1;
  name = "Lake View";
  location = "Pune";
  description = none;
  total_units = 1;
  status = "Planning";
  is_active = true;
  created_at = 1;
  updated_at = 1;
}

abbrev pub unit : UnitRow
unit = record {
  id = 1;
  project_id = 1;
  unit_number = "A-101";
  floor = some (pos 2);
  area = 120000;
  bedrooms = some 3;
  bathrooms = none;
  price = 500000000;
  status = available;
  booked_by = none;
  booked_at = none;
  sold_at = none;
  is_active = true;
  created_at = 1;
  updated_at = 1;
}

abbrev pub table_of : {Row : Type 0} → Row → Table Row
table_of row = record { rows = row ∷ []; next = 2 }

abbrev pub in_schema : {A : Type 0} → A → String → Option A
in_schema a name = if str_eq "tenant_1" name then some a else none

abbrev pub start : Db
start = record {
  schemas = "public" ∷ "tenant_1" ∷ "tenant_2" ∷ [];
  tenants = record {
    rows = tenant_of 1 "tenant_1" true ∷ tenant_of 2 "tenant_2" false ∷ [];
    next = 3;
  };
  users = in_schema (table_of ada_row);
  projects = in_schema (table_of project);
  units = in_schema (table_of unit);
  audit_logs = in_schema (record { rows = []; next = 1 });
  indexes = λ name. [];
  search_path = "public";
  statements = 0;
  fails = λ n. false;
  reason = λ n. "";
  time = λ n. n;
}

pub start-Healthy : Healthy start
start-Healthy = λ n. refl

pub start-Sound : Sound 3 start.tenants.rows
unfolding generate_schema_name decimal
start-Sound = (
  (λ e. omega arith),
  omega arith,
  refl,
  ((λ e. omega arith), tt),
  ((λ e. omega arith), omega arith, refl, tt, tt),
)

pub start-TenantsSound : TenantsSound start
start-TenantsSound = record { rows = start-Sound; positive = λ e. omega arith }

unit-TableValid : TableValid (table_of unit)
unit-TableValid = record { rows = ((omega arith, (refl, refl, refl)), tt); unique = (tt, tt) }

pub start-WellFormed : WellFormed start
unfolding any
start-WellFormed = record {
  units = record {
    at = λ name. elim (Bool-cases (str_eq "tenant_1" name)) [
      | inl e ↦ rw e unit-TableValid
      | inr e ↦ rw e tt
    ];
  };
  references = record {
    at = λ name. elim (Bool-cases (str_eq "tenant_1" name)) [
      | inl e ↦ rw e (refl, tt)
      | inr e ↦ rw e tt
    ];
  };
  emails = record {
    at = λ name. elim (Bool-cases (str_eq "tenant_1" name)) [
      | inl e ↦ rw e (tt, tt)
      | inr e ↦ rw e tt
    ];
  };
  tenants = start-TenantsSound;
}

abbrev pub ada : Payload
ada = record {
  id = 1;
  email = "ada@lake.example";
  role = some admin;
  tenant_id = some 1;
  tenant_schema = some "tenant_1";
}

abbrev pub root : Payload
root = record {
  id = 1;
  email = "root@api.example";
  role = some super_admin;
  tenant_id = none;
  tenant_schema = none;
}

abbrev pub verify : String → Verified
verify token =
    if str_eq token "a"
    then valid ada
    else if str_eq token "r"
    then valid root
    else json_web_token_error

abbrev pub hash : ℕ → String → String
hash salt password = "secret-hash"

abbrev pub pending : String → Db → Result (List Migration)
pending name s = ok (
    if is_some (s.users name)
    then []
    else users_table ∷ projects_table ∷ units_table ∷ audit_logs_table ∷ [])

abbrev pub compare : String → String → Bool
compare password password_hash = str_eq password "secret"

abbrev pub sign : Payload → String
sign payload = "a"

-- Whole hundredths in place of floating-point numbers.
abbrev pub floats : Floats
floats = record {
  parse = λ n. record { bits = n };
  plus = λ x y. record { bits = x.bits + y.bits };
  percent = λ n total. "50.00%";
  money = λ x. decimal x.bits;
}

abbrev pub packages : Outside
packages = record {
  compare = compare;
  hash = hash;
  sign = sign;
  verify = verify;
  pending = pending;
  floats = floats;
  order_tenants = λ rows. rows;
  order_users = λ rows. rows;
  order_projects = λ rows. rows;
  order_units = λ rows. rows;
  order_logs = λ rows. rows;
}

abbrev pub request_with : String → Request
request_with header = record {
  authorization = some header;
  ip = some "10.0.0.1";
  forwarded_for = none;
  remote_address = none;
  user_agent = none;
}

abbrev pub new_tenant : CreateTenantDto
new_tenant = record {
  name = "Hill Homes";
  contact = "office@hill.example";
  subscription_type = "Premium";
  admin_name = "Bea";
  admin_email = "bea@hill.example";
  admin_password = "longenough";
}

abbrev pub new_project : ProjectCall
new_project = create_call (record {
  name = "Hill View";
  location = "Goa";
  description = none;
  total_units = some 4;
  status = none;
})

-- A Super Admin makes a tenant, an Admin a project, and the Admin books a unit.
abbrev pub requests : List ApiRequest
requests =
    record {
      request = request_with "Bearer r";
      passes = true;
      call = of_tenants (Routes.create_call new_tenant);
    }
    ∷ record { request = request_with "Bearer a"; passes = true; call = of_projects new_project }
    ∷ record { request = request_with "Bearer a"; passes = true; call = of_units (book_call 1) }
    ∷ []
