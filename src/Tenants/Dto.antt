-- ===== src/Tenants/Dto.antt =====
-- src/modules/tenants/dto
use real_estate_multi_tenant.Prelude.{ℕ, String, Bool, Option, none, some, ◌||◌, is_some}
use real_estate_multi_tenant.Errors.{type_error}
use real_estate_multi_tenant.Db.{TenantRow, Result, ok, err}

-- `new CreateTenantDto(req.body)` copies the fields of the body.
pub record CreateTenantDto : Type 0 where
  pub name : String
  pub contact : String
  pub subscription_type : String
  pub admin_name : String
  pub admin_email : String
  pub admin_password : String

pub record AdminData : Type 0 where
  pub tenant_id : ℕ
  pub name : String
  pub email : String
  pub password : String
  pub role : String

unfoldable pub get_admin_data : CreateTenantDto → ℕ → AdminData
get_admin_data dto tenant_id = record {
  tenant_id = tenant_id;
  name = dto.admin_name;
  email = dto.admin_email;
  password = dto.admin_password;
  role = "Admin";
}

-- A field is `none` where the DTO lacks it.
pub record UpdateTenantDto : Type 0 where
  pub name : Option String
  pub contact : Option String
  pub subscription_type : Option String

-- `Object.keys(this).length > 0`
unfoldable pub has_updates : UpdateTenantDto → Bool
has_updates dto = is_some dto.name || (is_some dto.contact || is_some dto.subscription_type)

-- `new TenantResponseDto(tenant)` copies the columns of a row; `null` has no `get`.
unfoldable pub tenant_response : Option TenantRow → Result TenantRow
tenant_response none = err type_error
tenant_response (some t) = ok (record {
  id = t.id;
  name = t.name;
  contact = t.contact;
  subscription_type = t.subscription_type;
  schema_name = t.schema_name;
  is_active = t.is_active;
  created_at = t.created_at;
  updated_at = t.updated_at;
})
