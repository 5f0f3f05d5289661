-- ===== src/Projects/Dto.antt =====
-- src/modules/projects/dto: the bodies of requests as they pass validation, and the DTOs.
use real_estate_multi_tenant.Prelude.{
  ℕ, String, Bool, Option, none, some, ◌||◌, is_some, or_else, str_eq, if◌then◌else◌,
}
use real_estate_multi_tenant.Errors.{type_error}
use real_estate_multi_tenant.Db.{ProjectRow, Result, ok, err}

-- `req.body` of a creation. A field that is undefined and one that is null are both `none`.
pub record CreateProjectBody : Type 0 where
  pub name : String
  pub location : String
  pub description : Option String
  pub total_units : Option ℕ
  pub status : Option String

-- `tenant_id` is null for a Super Admin.
pub record CreateProjectDto : Type 0 where
  pub tenant_id : Option ℕ
  pub name : String
  pub location : String
  pub description : Option String
  pub total_units : ℕ
  pub status : String

-- `x || null` at a string: the empty string is falsy.
unfoldable pub string_or_null : Option String → Option String
string_or_null none = none
string_or_null (some text) = if str_eq text "" then none else some text

unfoldable pub create_project_dto : CreateProjectBody → Option ℕ → CreateProjectDto
unfolding string_or_null
create_project_dto body tenant_id = record {
  tenant_id = tenant_id;
  name = body.name;
  location = body.location;
  description = string_or_null body.description;
  total_units = or_else body.total_units 0;
  status = or_else (string_or_null body.status) "Planning";
}

-- A field is `none` where the DTO lacks it; the nullable column may also be set to null.
pub record UpdateProjectDto : Type 0 where
  pub name : Option String
  pub location : Option String
  pub description : Option (Option String)
  pub total_units : Option ℕ
  pub status : Option String
  pub is_active : Option Bool

-- `Object.keys(this).length > 0`
unfoldable pub has_updates : UpdateProjectDto → Bool
has_updates dto =
    is_some dto.name
    || (is_some dto.location
        || (is_some dto.description
            || (is_some dto.total_units || (is_some dto.status || is_some dto.is_active))))

-- `new ProjectResponseDto(project)` copies the columns of a row; `null` has no `get`.
unfoldable pub project_response : Option ProjectRow → Result ProjectRow
project_response none = err type_error
project_response (some p) = ok (record {
  id = p.id;
  tenant_id = p.tenant_id;
  name = p.name;
  location = p.location;
  description = p.description;
  total_units = p.total_units;
  status = p.status;
  is_active = p.is_active;
  created_at = p.created_at;
  updated_at = p.updated_at;
})
