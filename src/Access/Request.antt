-- ===== src/Access/Request.antt =====
-- What the middleware reads of a request and adds to it.
use real_estate_multi_tenant.Prelude.{ℕ, String, Option}

-- The payload of a token. A field that is missing is `none`.
pub record Payload : Type 0 where
  pub id : ℕ
  pub email : String
  pub role : Option String
  pub tenant_id : Option ℕ
  pub tenant_schema : Option String

-- jsonwebtoken's answer to `jwt.verify(token, secret)`: the payload, or the error that it throws.
pub data Verified : Type 0 where
  valid : Payload → Verified
  json_web_token_error token_expired_error other_error : Verified

pub record Request : Type 0 where
  pub authorization : Option String
  pub ip : Option String
  pub forwarded_for : Option String
  pub remote_address : Option String
  pub user_agent : Option String

-- `req.user`
pub record AuthUser : Type 0 where
  pub id : ℕ
  pub email : String
  pub role : Option String
  pub tenant_id : Option ℕ
  pub tenant_schema : Option String

-- `req.tenantSchema` and `req.tenantId`, which the tenant resolver sets.
pub record Scope : Type 0 where
  pub tenant_schema : String
  pub tenant_id : Option ℕ

-- A middleware calls `next()`, or it answers with a status and a message.
pub data Step (A : Type 0) : Type 0 where
  next : A → Step A
  deny : ℕ → String → Step A
