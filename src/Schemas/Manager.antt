-- ===== src/Schemas/Manager.antt =====
-- src/utils/schemaManager.js
use Prim.Native.Char.{code}
use Prim.Native.String
use real_estate_multi_tenant.Prelude.{
  ℕ, String, ◌≡◌, refl, inl, inr, Bool, true, false, not, ◌&&◌, ◌==◌, Bool-cases, List, [], ◌∷◌,
  Option, none, some, any, filter, head?, is_some, str_eq, decimal, if◌then◌else◌,
}
use real_estate_multi_tenant.Errors.{Error, message, internal, type_error}
use real_estate_multi_tenant.Db.{Db, ok, M, pure, raise, ◌>>=◌, attempt, run}

-- `tenant_${tenantId}`
unfoldable pub generate_schema_name : ℕ → String
unfolding decimal
generate_schema_name id = String.◌++◌ "tenant_" (decimal id)

abbrev pub has_schema : Db → String → Bool
has_schema s name = any (str_eq name) s.schemas

-- `throw new InternalServerError('…' + error.message)`
abbrev pub because : {A : Type 0} → String → Error → M A
because text e = raise (internal (String.◌++◌ text (message e)))

-- CREATE SCHEMA IF NOT EXISTS
abbrev pub with_schema : String → Db → Db
with_schema name s = record s {
  schemas = if has_schema s name then s.schemas else name ∷ s.schemas;
}

unfoldable pub create_schema : String → M (Unit {0})
unfolding run any message
create_schema name =
    attempt (run (λ s. (some tt, with_schema name s))) (because "Failed to create tenant schema: ")

abbrev pub forget {ℓ} : {A : Type ℓ} → (String → Option A) → String → String → Option A
forget f name other = if str_eq name other then none else f other

-- DROP SCHEMA IF EXISTS … CASCADE
abbrev pub without_schema : String → Db → Db
without_schema name s = record s {
  schemas = filter (λ other. not (str_eq name other)) s.schemas;
  users = forget s.users name;
  projects = forget s.projects name;
  units = forget s.units name;
  audit_logs = forget s.audit_logs name;
  indexes = λ other. if str_eq name other then [] else s.indexes other;
}

unfoldable pub drop_schema : String → M (Unit {0})
unfolding run filter message
drop_schema name =
    attempt (run (λ s. (some tt, without_schema name s))) (because "Failed to drop tenant schema: ")

-- SELECT schema_name FROM information_schema.schemata WHERE p
unfoldable pub select_schemas : (String → Bool) → M (List String)
unfolding run filter
select_schemas p = run λ s. (some (filter p s.schemas), s)

unfoldable pub schema_exists : String → M Bool
schema_exists name =
    attempt (do rows ← select_schemas (str_eq name); pure (is_some (head? rows))) (λ e. pure false)

unfoldable pub set_search_path : String → M (Unit {0})
unfolding run message
set_search_path name =
    attempt (run (λ s. (some tt, record s { search_path = name })))
      (because "Failed to set schema context: ")

unfoldable pub reset_search_path : M (Unit {0})
unfolding run
reset_search_path =
    attempt (run (λ s. (some tt, record s { search_path = "public" })))
      (λ e. raise (internal "Failed to reset schema context"))

-- `name LIKE 'prefix_%'`: the underscore stands for any one character.
begins_with : String → String → Bool
begins_with String.[] String.[] = false
begins_with String.[] (String.◌∷◌ d s) = true
begins_with (String.◌∷◌ c p) String.[] = false
begins_with (String.◌∷◌ c p) (String.◌∷◌ d s) = (code c == code d) && begins_with p s

-- The rows are destructured to the first one, which is an object and has no `map`, or undefined.
unfoldable pub get_all_tenant_schemas : M (List String)
unfolding begins_with
get_all_tenant_schemas =
    attempt (do rows ← select_schemas (begins_with "tenant"); raise type_error) (λ e. pure [])

-- It finds no schema, whatever the database holds.
pub get_all_tenant_schemas-eq : (s : Db) → (get_all_tenant_schemas s).0 ≡ ok []
unfolding get_all_tenant_schemas select_schemas
get_all_tenant_schemas-eq s = elim (Bool-cases (s.fails s.statements)) [
  | inl down ↦ rw down refl
  | inr up ↦ rw up refl
]
