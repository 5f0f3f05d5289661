-- ===== src/Http.antt =====
-- src/utils/response.js, and what a controller hands to the middleware behind it.
use real_estate_multi_tenant.Prelude.{ℕ, String, Option, none, some, str_eq, if◌then◌else◌}
use real_estate_multi_tenant.Errors.{Error, message}
use real_estate_multi_tenant.Db.{Db, M, Result, ok, err, Snapshot}

-- `status: 'success'` with the data, or `status: 'error'`. The stack trace that a development
-- server adds is left out.
pub data Reply (A : Type 0) : Type 0 where
  success : ℕ → String → Option A → Reply A
  failure : ℕ → String → Reply A

-- The HTTP status of a reply.
abbrev pub code : {A : Type 0} → Reply A → ℕ
code (success c m body) = c
code (failure c m) = c

abbrev pub send_success : {A : Type 0} → Option A → String → Reply A
send_success body text = success 200 text body

abbrev pub send_created : {A : Type 0} → A → String → Reply A
send_created body text = success 201 text (some body)

-- `error.message || 'Internal server error'`
unfoldable pub send_error : {A : Type 0} → Error → ℕ → Reply A
unfolding message
send_error e status =
    failure status (if str_eq (message e) "" then "Internal server error" else message e)

-- `res.locals.auditData`
pub record AuditData : Type 0 where
  pub entity_id : ℕ
  pub old_values : Option Snapshot
  pub new_values : Option Snapshot

-- The reply that was sent, and the audit data if the controller called `next()`.
abbrev pub Handled : Type 0 → Type 0
Handled A = Reply A × Option AuditData

abbrev pub finish : {A : Type 0} → Result (Handled A) → (Error → Reply A) → Handled A
finish (ok handled) on_error = handled
finish (err e) on_error = (on_error e, none)

-- `try { … } catch (error) { return sendError(…) }` of a controller: nothing is thrown further.
abbrev pub respond : {A : Type 0} → M (Handled A) → (Error → Reply A) → Db → Handled A × Db
respond m on_error s = let (r, s') = m s in (finish r on_error, s')
