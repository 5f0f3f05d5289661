-- ===== src/Units/Tests.antt =====
-- The theorems on the units at concrete inputs: a schema with two units, one project and a tenant.
use real_estate_multi_tenant.Prelude.{
  ℕ, ◌≤◌, ◌≡◌, ◌≢◌, refl, String, true, false, List, [], ◌∷◌, Option, none, some, pos, inl, inr,
  length, str_eq, arith, eq_iff, Bool-cases, filter, any, if◌then◌else◌,
}
use real_estate_multi_tenant.Db.{
  available, UnitRow, ProjectRow, TenantRow, Table, Db, run, select_where, update_where, update,
}
use real_estate_multi_tenant.Db.Healthy.{Healthy}
use real_estate_multi_tenant.Access.Roles.{admin, sales}
use real_estate_multi_tenant.Access.Request.{
  Payload, Verified, valid, json_web_token_error, Request, AuthUser, Scope,
}
use real_estate_multi_tenant.Access.Auth.{authenticate_token, optional_auth, token_of}
use real_estate_multi_tenant.Access.Guard.{Refused}
use real_estate_multi_tenant.Access.Isolation.{request_schema}
use real_estate_multi_tenant.Access.Scoped.{Untouched}
use real_estate_multi_tenant.Units.Dto.{CreateUnitBody}
use real_estate_multi_tenant.Units.Repository
use real_estate_multi_tenant.Units.Repository.{UnitFilter, has_id, is_bookable, set_booked}
use real_estate_multi_tenant.Units.Service
use real_estate_multi_tenant.Units.Routes.{book_call, delete_call, handle, unit_route}
use real_estate_multi_tenant.Units.Lifecycle.{UnitRequest, UnitsGrow, serve, mark_as_sold-UnitsGrow}
use real_estate_multi_tenant.Units.Invariant.{UnitsValid, TableValid}
use real_estate_multi_tenant.Units.Valid.{serve-UnitsValid, mark_as_sold-UnitsValid}
use real_estate_multi_tenant.Units.Isolation.{handle-Untouched}
use real_estate_multi_tenant.Units.Abstract.{unit_with, booking_of}
use real_estate_multi_tenant.Units.Booking.{book_unit-refines}
use real_estate_multi_tenant.Units.Race.{
  Race, Steps, check, confirm, lose, here, next, Steps-confirmed,
}
use real_estate_multi_tenant.Units.Guard.{unit_route-Refused, handle-Refused}

abbrev unit_of : ℕ → String → UnitRow
unit_of id number = record {
  id = id;
  project_id = 1;
  unit_number = number;
  floor = some (pos 2);
  area = 120000;
  bedrooms = some 3;
  bathrooms = some 2;
  price = 500000000;
  status = available;
  booked_by = none;
  booked_at = none;
  sold_at = none;
  is_active = true;
  created_at = 1;
  updated_at = 1;
}

abbrev two_units : Table UnitRow
two_units = record { rows = unit_of 1 "A-101" ∷ unit_of 2 "A-102" ∷ []; next = 3 }

abbrev one_project : Table ProjectRow
one_project = record {
  rows =
      record {
        id = 1;
        tenant_id = 1;
        name = "Lake View";
        location = "Pune";
        description = none;
        total_units = 2;
        status = "Active";
        is_active = true;
        created_at = 1;
        updated_at = 1;
      }
      ∷ [];
  next = 2;
}

abbrev one_tenant : Table TenantRow
one_tenant = record {
  rows =
      record {
        id = 1;
        name = "Lake Homes";
        contact = "office@lake.example";
        subscription_type = "Basic";
        schema_name = "tenant_1";
        is_active = true;
        created_at = 1;
        updated_at = 1;
      }
      ∷ [];
  next = 2;
}

abbrev in_schema : {A : Type 0} → A → String → Option A
in_schema a name = if str_eq "tenant_1" name then some a else none

abbrev start : Db
start = record {
  schemas = "public" ∷ "tenant_1" ∷ [];
  tenants = one_tenant;
  users = λ name. none;
  projects = in_schema one_project;
  units = in_schema two_units;
  audit_logs = in_schema (record { rows = []; next = 1 });
  indexes = λ name. [];
  search_path = "public";
  statements = 0;
  fails = λ n. false;
  reason = λ n. "";
  time = λ n. n;
}

two_units-TableValid : TableValid two_units
two_units-TableValid = record {
  rows = ((omega arith, (refl, refl, refl)), ((omega arith, (refl, refl, refl)), tt));
  unique = (((λ e. omega arith), tt), (tt, tt));
}

start-UnitsValid : UnitsValid start
start-UnitsValid = record {
  at = λ name. elim (Bool-cases (str_eq "tenant_1" name)) [
    | inl e ↦ rw e two_units-TableValid
    | inr e ↦ rw e tt
  ];
}

start-Healthy : Healthy start
start-Healthy = λ n. refl

abbrev same_order : List UnitRow → List UnitRow
same_order rows = rows

abbrev payload : Payload
payload = record {
  id = 7;
  email = "sam@lake.example";
  role = some sales;
  tenant_id = some 1;
  tenant_schema = some "tenant_1";
}

abbrev verify : String → Verified
verify token = if str_eq token "t" then valid payload else json_web_token_error

abbrev request_with : Option String → Request
request_with header = record {
  authorization = header;
  ip = some "10.0.0.1";
  forwarded_for = none;
  remote_address = none;
  user_agent = none;
}

abbrev good : Request
good = request_with (some "Bearer t")

abbrev bookings : List UnitRequest
bookings =
    record { request = good; valid = true; call = book_call 1 }
    ∷ record { request = good; valid = true; call = delete_call 1 }
    ∷ record { request = good; valid = true; call = book_call 1 }
    ∷ []

serve-UnitsValid_example : UnitsValid (serve same_order verify bookings start)
serve-UnitsValid_example = serve-UnitsValid same_order verify bookings start start-UnitsValid

mark_as_sold-UnitsGrow_example : UnitsGrow start (Service.mark_as_sold 2 "tenant_1" start).1
mark_as_sold-UnitsGrow_example = mark_as_sold-UnitsGrow 2 "tenant_1" start

mark_as_sold-UnitsValid_example : UnitsValid (Service.mark_as_sold 2 "tenant_1" start).1
mark_as_sold-UnitsValid_example = mark_as_sold-UnitsValid 2 "tenant_1" start start-UnitsValid

other_schema : request_schema verify good ≢ some "tenant_2"
unfolding authenticate_token token_of
other_schema e = ground (arith, eq_iff "tenant_1" "tenant_2")

handle-Untouched_example :
    Untouched "tenant_2" start (handle same_order good true verify (book_call 1) start).1
handle-Untouched_example =
    handle-Untouched same_order good true verify (book_call 1) "tenant_2" start other_schema

book_unit-refines_example :
    ((Service.book_unit 1 7 "tenant_1" start).0
      ≡ (booking_of 1 7 2 (unit_with 1 two_units.rows) two_units.rows).0)
    × ((Service.book_unit 1 7 "tenant_1" start).1.units "tenant_1"
        ≡ some (record two_units {
          rows = (booking_of 1 7 2 (unit_with 1 two_units.rows) two_units.rows).1;
        }))
book_unit-refines_example = book_unit-refines 1 7 "tenant_1" start two_units start-Healthy refl

abbrev sam : AuthUser
sam = record {
  id = 7;
  email = "sam@lake.example";
  role = some sales;
  tenant_id = some 1;
  tenant_schema = some "tenant_1";
}

abbrev tenant_1 : Scope
tenant_1 = record { tenant_schema = "tenant_1"; tenant_id = some 1 }

unit_route-Refused_example :
    Refused (unit_route same_order good true (delete_call 1) sam tenant_1) start
unit_route-Refused_example =
    unit_route-Refused same_order good true (delete_call 1) sam tenant_1 sales start refl
      (λ e. ground (arith, eq_iff sales admin))

no_token : optional_auth verify (request_with none) ≡ none
unfolding optional_auth token_of
no_token = refl

handle-Refused_example :
    Refused (handle same_order (request_with none) true verify (book_call 1)) start
handle-Refused_example =
    handle-Refused same_order (request_with none) true verify (book_call 1) start no_token

abbrev all_units : UnitFilter
all_units = record {
  active_only = true;
  project_id = none;
  status = some available;
  min_price = none;
  max_price = none;
  bedrooms = none;
}

abbrev body : CreateUnitBody
body = record {
  project_id = 1;
  unit_number = "A-103";
  floor = some (pos 1);
  area = 90000;
  bedrooms = some 2;
  bathrooms = none;
  price = 400000000;
}

-- Two users whose checks both come before the first update: one is confirmed.
abbrev race : Db → List ℕ → List ℕ → Race
race db waiting confirmed = record { db = db; waiting = waiting; confirmed = confirmed }

abbrev after_check : Db → Db
after_check s = (Service.check_available 1 "tenant_1" s).1

abbrev after_book : ℕ → Db → Db
after_book user_id s = (Repository.book_unit 1 user_id "tenant_1" s).1

two_bookings :
    Steps 1 "tenant_1"
      (race start [] [])
      (race (after_book 9 (after_book 8 (after_check (after_check start)))) (9 ∷ 8 ∷ []) (8 ∷ []))
unfolding Service.check_available Repository.find_by_id Repository.book_unit select_where
    update_where run filter has_id is_bookable any update
two_bookings =
    next
      (next
        (next (next here (check (race start [] []) 8 (unit_of 1 "A-101") refl))
          (check (race (after_check start) (8 ∷ []) []) 9 (unit_of 1 "A-101") refl))
        (confirm (race (after_check (after_check start)) (9 ∷ 8 ∷ []) []) 8
          (set_booked 8 3 (unit_of 1 "A-101")) refl refl))
      (lose (race (after_book 8 (after_check (after_check start))) (9 ∷ 8 ∷ []) (8 ∷ [])) 9 refl
        (λ (u, e). cc))

Steps-confirmed_example : length {A = ℕ} (8 ∷ []) ≤ 1
Steps-confirmed_example =
    Steps-confirmed 1 "tenant_1" (race start [] [])
      (race (after_book 9 (after_book 8 (after_check (after_check start)))) (9 ∷ 8 ∷ []) (8 ∷ []))
      two_bookings start-UnitsValid refl
