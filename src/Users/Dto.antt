-- ===== src/Users/Dto.antt =====
-- src/modules/users/dto: the bodies of requests as they pass validation, and the DTOs.
use real_estate_multi_tenant.Prelude.{ℕ, String, Bool, Option, none, some, ◌||◌, is_some}
use real_estate_multi_tenant.Errors.{type_error}
use real_estate_multi_tenant.Db.{UserRow, Result, ok, err}
use real_estate_multi_tenant.Access.Auth.{truthy_id}

pub record LoginDto : Type 0 where
  pub email : String
  pub password : String

-- `req.body` of a creation: the validation refuses any other field.
pub record CreateUserBody : Type 0 where
  pub name : String
  pub email : String
  pub password : String
  pub role : String

pub record CreateUserDto : Type 0 where
  pub name : String
  pub email : String
  pub password : String
  pub role : String
  pub tenant_id : Option ℕ

unfoldable pub create_user_dto : CreateUserBody → Option ℕ → CreateUserDto
create_user_dto body tenant_id = record {
  name = body.name;
  email = body.email;
  password = body.password;
  role = body.role;
  tenant_id = truthy_id tenant_id;
}

-- A field is `none` where the DTO lacks it.
pub record UpdateUserDto : Type 0 where
  pub name : Option String
  pub email : Option String
  pub password : Option String
  pub role : Option String
  pub is_active : Option Bool

-- `Object.keys(this).length > 0`
unfoldable pub has_updates : UpdateUserDto → Bool
has_updates dto =
    is_some dto.name
    || (is_some dto.email || (is_some dto.password || (is_some dto.role || is_some dto.is_active)))

-- What a reply says of a user: every column but the hash of the password.
pub record UserResponse : Type 0 where
  pub id : ℕ
  pub name : String
  pub email : String
  pub role : String
  pub is_active : Bool
  pub tenant_id : Option ℕ
  pub created_at : ℕ
  pub updated_at : ℕ

abbrev pub response_of : UserRow → UserResponse
response_of u = record {
  id = u.id;
  name = u.name;
  email = u.email;
  role = u.role;
  is_active = u.is_active;
  tenant_id = truthy_id u.tenant_id;
  created_at = u.created_at;
  updated_at = u.updated_at;
}

-- `new UserResponseDto(user)`; `null` has no `get`.
unfoldable pub user_response : Option UserRow → Result UserResponse
user_response none = err type_error
user_response (some u) = ok (response_of u)

-- `UserResponseDto.withToken(user, token, tenant_schema)`
pub record LoginResult : Type 0 where
  pub user : UserResponse
  pub token : String
  pub tenant_schema : Option String
