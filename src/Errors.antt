-- ===== src/Errors.antt =====
-- src/utils/errors.js: the error classes, and exceptions that are none of them.
use real_estate_multi_tenant.Prelude.{
  ℕ, ◌/◌, String, Bool, true, false, Option, none, some, ◌==◌, if◌then◌else◌,
}

-- `query_failed` is an error of the database driver, `type_error` a TypeError of the language.
pub data Error : Type 0 where
  bad_request unauthorized forbidden not_found conflict validation internal : String → Error
  query_failed : String → Error
  type_error : Error

-- `error.message`
unfoldable pub message : Error → String
message (bad_request m) = m
message (unauthorized m) = m
message (forbidden m) = m
message (not_found m) = m
message (conflict m) = m
message (validation m) = m
message (internal m) = m
message (query_failed m) = m
message type_error = "Cannot read properties of null"

-- `error.statusCode`, undefined on an error that is no AppError
unfoldable pub status_code : Error → Option ℕ
status_code (bad_request _) = some 400
status_code (unauthorized _) = some 401
status_code (forbidden _) = some 403
status_code (not_found _) = some 404
status_code (conflict _) = some 409
status_code (validation _) = some 422
status_code (internal _) = some 500
status_code _ = none

-- `error.status`: whether the three-digit code starts with "4"
unfoldable pub status : ℕ → String
status code = if code / 100 == 4 then "fail" else "error"

-- `error.isOperational`
unfoldable pub is_operational : Error → Bool
is_operational (internal _) = false
is_operational (query_failed _) = false
is_operational type_error = false
is_operational _ = true
