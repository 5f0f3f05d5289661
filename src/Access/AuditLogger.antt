-- ===== src/Access/AuditLogger.antt =====
-- src/middleware/auditLogger.js. `JSON.stringify` of the values is `Snapshot`.
use Prim.Native.Char.{code}
use real_estate_multi_tenant.Prelude.{
  ℕ, String, Bool, List, [], ◌∷◌, Option, none, some, any, str_eq, ◌==◌, ◌||◌, if◌then◌else◌,
}
use real_estate_multi_tenant.Db.{
  Snapshot, AuditRow, Table, Db, M, pure, ◌>>=◌, attempt, audit_logs, insert_into,
}
use real_estate_multi_tenant.Http.{AuditData}
use real_estate_multi_tenant.Access.Request.{Request, AuthUser, Scope}
use real_estate_multi_tenant.Access.Auth.{truthy}
use real_estate_multi_tenant.Access.TenantResolver.{set_search_path, is_super}

pub record LogData : Type 0 where
  pub user_id : ℕ
  pub user_name : String
  pub action : String
  pub entity : String
  pub entity_id : ℕ
  pub old_values : Option Snapshot
  pub new_values : Option Snapshot
  pub ip_address : Option String
  pub user_agent : Option String

abbrev pub audit_row : LogData → ℕ → ℕ → AuditRow
audit_row l id now = record {
  id = id;
  user_id = l.user_id;
  user_name = l.user_name;
  action = l.action;
  entity = l.entity;
  entity_id = l.entity_id;
  old_values = l.old_values;
  new_values = l.new_values;
  ip_address = l.ip_address;
  user_agent = l.user_agent;
  created_at = now;
}

-- The values of the column `action`.
abbrev audit_actions : List String
audit_actions = "CREATE" ∷ "UPDATE" ∷ "DELETE" ∷ "BOOK" ∷ "ACTIVATE" ∷ "DEACTIVATE" ∷ []

unfoldable pub is_audit_action : Db → Table AuditRow → AuditRow → Bool
unfolding any
is_audit_action s t row = any (str_eq row.action) audit_actions

-- A failure is logged to the console and goes no further.
unfoldable pub create_audit_log : LogData → String → M (Unit {0})
unfolding set_search_path
create_audit_log log schema =
    attempt
      (do
        done ← set_search_path schema
        row ← insert_into audit_logs schema is_audit_action (audit_row log)
        pure tt)
      (λ e. pure tt)

-- `s.split(',')[0]`
first_part : String → String
first_part Prim.Native.String.[] = Prim.Native.String.[]
first_part (Prim.Native.String.◌∷◌ c s) =
    if code c == 44 then Prim.Native.String.[] else Prim.Native.String.◌∷◌ c (first_part s)

abbrev or_string : Option String → Option String → Option String
or_string none b = b
or_string (some a) b = some a

abbrev first_address : Option String → Option String
first_address none = none
first_address (some s) = truthy (some (first_part s))

unfoldable pub ip_of : Request → Option String
unfolding first_part
ip_of req =
    or_string (truthy req.ip) (or_string (first_address req.forwarded_for) req.remote_address)

-- `req.user` has no name, so the column `user_name` holds the email.
abbrev pub log_data : Request → AuthUser → String → String → AuditData → LogData
log_data req user entity action audited = record {
  user_id = user.id;
  user_name = user.email;
  action = action;
  entity = entity;
  entity_id = audited.entity_id;
  old_values = audited.old_values;
  new_values = audited.new_values;
  ip_address = ip_of req;
  user_agent = req.user_agent;
}

-- `auditLog(entity, action)`, which runs where the controller called `next()`.
unfoldable pub audit_log :
    String → String → Request → AuthUser → Scope → Option AuditData → M (Unit {0})
unfolding create_audit_log
audit_log entity action req user scope none = pure tt
audit_log entity action req user scope (some audited) =
    if str_eq scope.tenant_schema "" || is_super user.role
    then pure tt
    else create_audit_log (log_data req user entity action audited) scope.tenant_schema
