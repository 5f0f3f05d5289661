-- ===== src/Db/Rows.antt =====
-- The rows of the tables, with the columns of src/migrations, and the state of the database.
-- DECIMAL columns are counted in hundredths; nullable columns are options.
use real_estate_multi_tenant.Prelude.{ℕ, ℤ, String, Bool, List, Option, some, str_eq, if◌then◌else◌}

pub data UnitStatus : Type 0 where
  available booked sold : UnitStatus

pub record UnitRow : Type 0 where
  pub id : ℕ
  pub project_id : ℕ
  pub unit_number : String
  pub floor : Option ℤ
  pub area : ℕ
  pub bedrooms : Option ℕ
  pub bathrooms : Option ℕ
  pub price : ℕ
  pub status : UnitStatus
  pub booked_by : Option ℕ
  pub booked_at : Option ℕ
  pub sold_at : Option ℕ
  pub is_active : Bool
  pub created_at : ℕ
  pub updated_at : ℕ

pub record ProjectRow : Type 0 where
  pub id : ℕ
  pub tenant_id : ℕ
  pub name : String
  pub location : String
  pub description : Option String
  pub total_units : ℕ
  pub status : String
  pub is_active : Bool
  pub created_at : ℕ
  pub updated_at : ℕ

-- The users of the public schema have no `tenant_id`.
pub record UserRow : Type 0 where
  pub id : ℕ
  pub tenant_id : Option ℕ
  pub name : String
  pub email : String
  pub password_hash : String
  pub role : String
  pub is_active : Bool
  pub created_at : ℕ
  pub updated_at : ℕ

pub record TenantRow : Type 0 where
  pub id : ℕ
  pub name : String
  pub contact : String
  pub subscription_type : String
  pub schema_name : String
  pub is_active : Bool
  pub created_at : ℕ
  pub updated_at : ℕ

-- What `JSON.stringify` writes into the columns `old_values` and `new_values`. The response of a
-- unit or a project has the columns of its row; that of a user has no password hash.
pub data Snapshot : Type 0 where
  of_unit : UnitRow → Snapshot
  of_project : ProjectRow → Snapshot
  of_user :
      (id : ℕ) (tenant_id : Option ℕ) (name email role : String) (is_active : Bool)
      (created_at updated_at : ℕ)
      → Snapshot

pub record AuditRow : Type 0 where
  pub id : ℕ
  pub user_id : ℕ
  pub user_name : String
  pub action : String
  pub entity : String
  pub entity_id : ℕ
  pub old_values : Option Snapshot
  pub new_values : Option Snapshot
  pub ip_address : Option String
  pub user_agent : Option String
  pub created_at : ℕ

-- `next` is the next value of the sequence behind `id`.
pub record Table (Row : Type 0) : Type 0 where
  pub rows : List Row
  pub next : ℕ

-- `schemas` are the schemas that exist, `none` is a table that does not exist in one, and `indexes` are
-- the names of the indexes of each. `fails`, `reason` and `time` give the fate and the clock of each
-- statement by its number.
pub record Db : Type 0 where
  pub schemas : List String
  pub tenants : Table TenantRow
  pub users : String → Option (Table UserRow)
  pub projects : String → Option (Table ProjectRow)
  pub units : String → Option (Table UnitRow)
  pub audit_logs : String → Option (Table AuditRow)
  pub indexes : String → List String
  pub search_path : String
  pub statements : ℕ
  pub fails : ℕ → Bool
  pub reason : ℕ → String
  pub time : ℕ → ℕ

unfoldable pub update {ℓ} : {A : Type ℓ} → (String → Option A) → String → A → String → Option A
update f name a other = if str_eq name other then some a else f other
