-- ===== src/Api/Tests.antt =====
-- The theorems on the whole API, the tenants, the projects and the statistics at concrete inputs.
use real_estate_multi_tenant.Prelude.{
  decimal, String, ap, text_length, ◌≡◌, ◌≢◌, ◌≤◌, refl, true, false, some, inl, arith, eq_iff,
  filter, any,
}
use real_estate_multi_tenant.Db.{TenantRow, Db, ok, ◌>>◌, select_where, update_where}
use real_estate_multi_tenant.Db.Healthy.{Healthy}
use real_estate_multi_tenant.Db.Ends.{Ends}
use real_estate_multi_tenant.Db.Returns.{OkHolds, Returns}
use real_estate_multi_tenant.Access.Roles.{super_admin, admin, sales}
use real_estate_multi_tenant.Access.Request.{AuthUser, Scope}
use real_estate_multi_tenant.Access.Auth.{authenticate_token, token_of, user_of as auth_user}
use real_estate_multi_tenant.Access.Guard.{Refused}
use real_estate_multi_tenant.Access.Isolation.{request_schema}
use real_estate_multi_tenant.Access.Scoped.{Untouched}
use real_estate_multi_tenant.Access.SuperAdmin.{AsSuperAdmin}
use real_estate_multi_tenant.Access.TenantResolver.{tenant_resolver}
use real_estate_multi_tenant.Tenants.Dto.{tenant_response}
use real_estate_multi_tenant.Tenants.Repository
use real_estate_multi_tenant.Tenants.Service
use real_estate_multi_tenant.Tenants.Service.{temp_schema_name, create_tenant, deactivate_tenant}
use real_estate_multi_tenant.Tenants.Routes.{TenantCall, tenants_handle}
use real_estate_multi_tenant.Tenants.Routes
use real_estate_multi_tenant.Tenants.Sound.{TenantsSound, Sound-schemas_differ}
use real_estate_multi_tenant.Tenants.Atomic.{Returned, Thrown, create_tenant-Ends}
use real_estate_multi_tenant.Tenants.Onboarding.{HasAdmin, ShortAdmin}
use real_estate_multi_tenant.Tenants.Welcome.{ShortTenant, create_tenant-HasAdmin}
use real_estate_multi_tenant.Tenants.Suspension.{Denied, deactivate_tenant-locks_out}
use real_estate_multi_tenant.Tenants.Invariant.{tenants_handle-TenantsSound}
use real_estate_multi_tenant.Schemas.Manager.{generate_schema_name, create_schema}
use real_estate_multi_tenant.Schemas.Migrations.{run_tenant_migration}
use real_estate_multi_tenant.Schemas.Slots.{Tables, tables_of, bare, Fails, Holds}
use real_estate_multi_tenant.Schemas.Complete.{in_order, complete, run_tenant_migration-Holds}
use real_estate_multi_tenant.Tenants.Names.{plain, schema_names-Plain}
use real_estate_multi_tenant.Tenants.Guard.{tenants_handle-Refused}
use real_estate_multi_tenant.Projects.Routes.{delete_call, project_route, projects_handle}
use real_estate_multi_tenant.Projects.Guard.{project_route-Refused}
use real_estate_multi_tenant.Projects.Isolation.{projects_handle-Untouched}
use real_estate_multi_tenant.Units.Lifecycle.{UnitsGrow}
use real_estate_multi_tenant.Users.Service.{tenant_user_login}
use real_estate_multi_tenant.Users.Cost.{tenant_user_login-statements}
use real_estate_multi_tenant.Stats.Controller.{Stats, collect_stats}
use real_estate_multi_tenant.Stats.Totals.{Balanced, collect_stats-Balanced}
use real_estate_multi_tenant.Stats.Reference.{totals_of, collect_stats-eq}
use real_estate_multi_tenant.Api.Routes.{serve_all}
use real_estate_multi_tenant.Api.Growth.{serve_all-UnitsGrow}
use real_estate_multi_tenant.Api.Trail.{LogsGrow, serve_all-LogsGrow}
use real_estate_multi_tenant.Api.WellFormed.{WellFormed, serve_all-WellFormed}
use real_estate_multi_tenant.Api.Sample.{
  tenant_of, project, unit, table_of, start, start-Healthy, start-Sound, start-TenantsSound,
  start-WellFormed, ada, verify, hash, pending, compare, sign, floats, packages, request_with,
  new_tenant, new_project, requests,
}

serve_all-UnitsGrow_example : UnitsGrow start (serve_all packages requests start)
serve_all-UnitsGrow_example = serve_all-UnitsGrow packages requests start

serve_all-LogsGrow_example : LogsGrow start (serve_all packages requests start)
serve_all-LogsGrow_example = serve_all-LogsGrow packages requests start

serve_all-WellFormed_example : WellFormed (serve_all packages requests start)
serve_all-WellFormed_example = serve_all-WellFormed packages requests start start-WellFormed

create_tenant-Ends_example :
    Ends
      (Returned new_tenant start)
      (Thrown new_tenant start)
      (create_tenant pending hash new_tenant start)
create_tenant-Ends_example = create_tenant-Ends pending hash new_tenant start start-Sound

tenants_handle-TenantsSound_example :
    TenantsSound
      (tenants_handle pending hash
        (λ rows. rows)
        true
        verify
        (request_with "Bearer r")
        (Routes.create_call new_tenant)
        start).1
tenants_handle-TenantsSound_example =
    tenants_handle-TenantsSound pending hash (λ rows. rows) true verify (request_with "Bearer r")
      (Routes.create_call new_tenant) start start-TenantsSound

Sound-schemas_differ_example : tenant_of 1 "tenant_1" true ≡ tenant_of 1 "tenant_1" true
Sound-schemas_differ_example =
    Sound-schemas_differ 3 start.tenants.rows (tenant_of 1 "tenant_1" true)
      (tenant_of 1 "tenant_1" true) start-Sound (inl refl) (inl refl) refl

abbrev closed : TenantRow
closed = record (tenant_of 1 "tenant_1" false) { updated_at = 2 }

closing : deactivate_tenant 1 start ≡ (ok closed, (deactivate_tenant 1 start).1)
unfolding deactivate_tenant Repository.find_by_id Repository.deactivate Repository.update
    select_where update_where Service.found tenant_response filter Repository.has_id any
    Repository.fits_lengths
closing = refl

-- After the tenant is deactivated, its Admin is not let through.
deactivate_tenant-locks_out_example :
    OkHolds Denied (tenant_resolver (auth_user ada) (deactivate_tenant 1 start).1).0
deactivate_tenant-locks_out_example =
    deactivate_tenant-locks_out 1 start closed (deactivate_tenant 1 start).1
      (deactivate_tenant 1 start).1 (auth_user ada) closing refl refl refl

no_super_admin : ¬ AsSuperAdmin (authenticate_token verify (request_with "Bearer a"))
unfolding authenticate_token token_of
no_super_admin e = let same : admin ≡ super_admin = cc in ground (arith, eq_iff admin super_admin)

tenants_handle-Refused_example :
    Refused
      (tenants_handle pending hash
        (λ rows. rows)
        true
        verify
        (request_with "Bearer a")
        (Routes.create_call new_tenant))
      start
tenants_handle-Refused_example =
    tenants_handle-Refused pending hash (λ rows. rows) true verify (request_with "Bearer a")
      (Routes.create_call new_tenant) start no_super_admin

other_schema : request_schema verify (request_with "Bearer a") ≢ some "tenant_2"
unfolding authenticate_token token_of
other_schema e = ground (arith, eq_iff "tenant_1" "tenant_2")

projects_handle-Untouched_example :
    Untouched "tenant_2" start
      (projects_handle (λ rows. rows) (request_with "Bearer a") true verify new_project start).1
projects_handle-Untouched_example =
    projects_handle-Untouched (λ rows. rows) (request_with "Bearer a") true verify new_project
      "tenant_2" start other_schema

abbrev sam : AuthUser
sam = record {
  id = 2;
  email = "sam@lake.example";
  role = some sales;
  tenant_id = some 1;
  tenant_schema = some "tenant_1";
}

abbrev lake : Scope
lake = record { tenant_schema = "tenant_1"; tenant_id = some 1 }

project_route-Refused_example :
    Refused
      (project_route (λ rows. rows) (request_with "Bearer a") true (delete_call 1) sam lake)
      start
project_route-Refused_example =
    project_route-Refused (λ rows. rows) (request_with "Bearer a") true (delete_call 1) sam lake
      sales start refl (λ e. ground (arith, eq_iff sales admin))

tenant_user_login-statements_example :
    (tenant_user_login compare sign
      (record { email = "ada@lake.example"; password = "secret" })
      start).1.statements
    ≤ 2
unfolding filter
tenant_user_login-statements_example =
    tenant_user_login-statements compare sign
      (record { email = "ada@lake.example"; password = "secret" }) start

collect_stats-Balanced_example :
    Returns (λ (st : Stats). Balanced st.totals.units) (collect_stats floats)
collect_stats-Balanced_example = collect_stats-Balanced floats

collect_stats-eq_example :
    totals_of (collect_stats floats start).0
    ≡ some (
      record {
        projects = 1;
        units = record { total = 1; available = 1; booked = 0; sold = 0 };
        revenue = record { bits = 0 };
      },
      2,
      1,
      "50.00%",
      "0",
    )
unfolding filter decimal
collect_stats-eq_example =
    collect_stats-eq floats start start-Healthy ((table_of unit, refl), tt)
      ((table_of project, refl), tt)

schema_names-Plain_example :
    (plain (temp_schema_name "Lake \" Homes" 7) ≡ true) × (plain (generate_schema_name 12) ≡ true)
schema_names-Plain_example = schema_names-Plain "Lake \" Homes" 7 12

sample-reports :
    (name : String) (s : Db) → Healthy s → tables_of name s ≡ bare → pending name s ≡ ok in_order
sample-reports name s alive e = rw (ap (λ (t : Tables). t.users) e) refl

run_tenant_migration-Holds_example :
    Ends
      (λ done s'. Holds "tenant_3" (complete bare) s')
      Fails
      ((create_schema "tenant_3" >> run_tenant_migration pending "tenant_3") start)
run_tenant_migration-Holds_example =
    run_tenant_migration-Holds "tenant_3" pending bare (sample-reports "tenant_3") start
      start-Healthy refl refl refl

new_tenant-ShortAdmin : ShortAdmin hash new_tenant
unfolding text_length
new_tenant-ShortAdmin = record {
  name = omega arith;
  email = omega arith;
  hashed = λ draw. omega arith;
}

temp-ShortTenant : ShortTenant new_tenant (temp_schema_name new_tenant.name 1)
unfolding text_length temp_schema_name
temp-ShortTenant = record { name = omega arith; contact = omega arith; schema = omega arith }

new_tenant-ShortTenant : ShortTenant new_tenant (generate_schema_name 3)
unfolding text_length generate_schema_name
new_tenant-ShortTenant = record { name = omega arith; contact = omega arith; schema = omega arith }

create_tenant-HasAdmin_example :
    Ends
      (λ t s'. HasAdmin hash new_tenant t.id s' × Returned new_tenant start t s')
      Fails
      (create_tenant pending hash new_tenant start)
unfolding generate_schema_name any Repository.fits_lengths
create_tenant-HasAdmin_example =
    create_tenant-HasAdmin pending hash sample-reports new_tenant new_tenant-ShortAdmin start
      start-Healthy start-Sound refl refl temp-ShortTenant new_tenant-ShortTenant refl
