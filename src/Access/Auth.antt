-- ===== src/Access/Auth.antt =====
-- src/middleware/auth.js. `verify` is `jwt.verify` of the package jsonwebtoken with the secret.
use Prim.Native.Char.{code}
use Prim.Native.String.{String, [], ◌∷◌}
use real_estate_multi_tenant.Prelude.{ℕ, zero, Option, none, some, ◌==◌, str_eq, if◌then◌else◌}
use real_estate_multi_tenant.Access.Request.{
  Payload, Verified, valid, json_web_token_error, token_expired_error, other_error, Request,
  AuthUser, Step, next, deny,
}

-- `header.split(' ')[1]`
until_space : String → String
until_space [] = []
until_space (c ∷ s) = if code c == 32 then [] else c ∷ until_space s

second_part : String → Option String
second_part [] = none
second_part (c ∷ s) = if code c == 32 then some (until_space s) else second_part s

abbrev pub truthy : Option String → Option String
truthy none = none
truthy (some t) = if str_eq t "" then none else some t

abbrev pub truthy_id : Option ℕ → Option ℕ
truthy_id (some zero) = none
truthy_id x = x

-- The token, if the header has one that is not empty.
unfoldable pub token_of : Option String → Option String
unfolding until_space second_part
token_of none = none
token_of (some header) = truthy (second_part header)

abbrev pub user_of : Payload → AuthUser
user_of p = record {
  id = p.id;
  email = p.email;
  role = p.role;
  tenant_id = truthy_id p.tenant_id;
  tenant_schema = truthy p.tenant_schema;
}

abbrev pub outcome : Verified → Step AuthUser
outcome (valid p) = next (user_of p)
outcome json_web_token_error = deny 401 "Invalid token"
outcome token_expired_error = deny 401 "Token expired"
outcome other_error = deny 401 "Authentication failed"

abbrev pub with_token : (String → Verified) → Option String → Step AuthUser
with_token verify none = deny 401 "Access denied. No token provided."
with_token verify (some token) = outcome (verify token)

unfoldable pub authenticate_token : (String → Verified) → Request → Step AuthUser
authenticate_token verify req = with_token verify (token_of req.authorization)

abbrev pub optional : Verified → Option AuthUser
optional (valid p) = some (user_of p)
optional _ = none

abbrev pub optional_token : (String → Verified) → Option String → Option AuthUser
optional_token verify none = none
optional_token verify (some token) = optional (verify token)

-- Never answers: a bad token leaves `req.user` unset.
unfoldable pub optional_auth : (String → Verified) → Request → Option AuthUser
optional_auth verify req = optional_token verify (token_of req.authorization)
