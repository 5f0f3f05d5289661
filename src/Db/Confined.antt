-- ===== src/Db/Confined.antt =====
-- Isolation of schemas: an action is confined to a schema when it changes no table of any other,
-- and no tenant. One rule for each way to build an action.
use real_estate_multi_tenant.Prelude.{
  ℕ, String, ◌≡◌, ◌≢◌, refl, ◌∙◌, Bool, List, Option, arith, eq_iff,
}
use real_estate_multi_tenant.Db.Rows.{Table, Db, update}
use real_estate_multi_tenant.Db.Exec.{M}
use real_estate_multi_tenant.Db.Respects.{
  Preorder, Respects, Respects-insert, Respects-update, Respects-delete, respects_rules,
}
use real_estate_multi_tenant.Db.Statements.{
  Relation, units, projects, users, audit_logs, insert_into, update_where, delete_where,
}

pub record Elsewhere (name : String) (s s' : Db) : Type 0 where
  pub tenants : s'.tenants ≡ s.tenants
  pub users : (other : String) → other ≢ name → s'.users other ≡ s.users other
  pub projects : (other : String) → other ≢ name → s'.projects other ≡ s.projects other
  pub units : (other : String) → other ≢ name → s'.units other ≡ s.units other
  pub audit_logs : (other : String) → other ≢ name → s'.audit_logs other ≡ s.audit_logs other

module _ {name : String} where
  pub Elsewhere-refl : (s : Db) → Elsewhere name s s
  Elsewhere-refl s = record {
    tenants = refl;
    users = λ o h. refl;
    projects = λ o h. refl;
    units = λ o h. refl;
    audit_logs = λ o h. refl;
  }

  pub Elsewhere-trans : {s t u : Db} → Elsewhere name s t → Elsewhere name t u → Elsewhere name s u
  Elsewhere-trans h k = record {
    tenants = k.tenants ∙ h.tenants;
    users = λ o n. k.users o n ∙ h.users o n;
    projects = λ o n. k.projects o n ∙ h.projects o n;
    units = λ o n. k.units o n ∙ h.units o n;
    audit_logs = λ o n. k.audit_logs o n ∙ h.audit_logs o n;
  }

pub Elsewhere-preorder : (name : String) → Preorder (Elsewhere name)
Elsewhere-preorder name = record {
  refl = Elsewhere-refl;
  trans = λ s t u. Elsewhere-trans;
  count = λ s n. record {
    tenants = refl;
    users = λ o h. refl;
    projects = λ o h. refl;
    units = λ o h. refl;
    audit_logs = λ o h. refl;
  };
  path = λ s p. record {
    tenants = refl;
    users = λ o h. refl;
    projects = λ o h. refl;
    units = λ o h. refl;
    audit_logs = λ o h. refl;
  };
}

-- `m` changes nothing outside the schema, whether it returns or throws.
abbrev pub Confined : (name : String) {A : Type 0} → M A → Type 0
Confined name m = Respects (Elsewhere name) m

-- Writing one table of a schema is confined to it.
pub record IsLocal {Row : Type 0} (R : Relation Row) : Type 0 where
  pub local : (name : String) (t : Table Row) (s : Db) → Elsewhere name s (R.write name t s)

module _ (name other : String) (h : other ≢ name) where
  update_ne : {A : Type 0} (f : String → Option A) (a : A) → update f name a other ≡ f other
  unfolding update
  update_ne f a = ground (arith, eq_iff name other)

pub units-IsLocal : IsLocal units
units-IsLocal = record {
  local = λ name t s. record {
    tenants = refl;
    users = λ o h. refl;
    projects = λ o h. refl;
    units = λ o h. update_ne name o h s.units t;
    audit_logs = λ o h. refl;
  };
}

pub projects-IsLocal : IsLocal projects
projects-IsLocal = record {
  local = λ name t s. record {
    tenants = refl;
    users = λ o h. refl;
    projects = λ o h. update_ne name o h s.projects t;
    units = λ o h. refl;
    audit_logs = λ o h. refl;
  };
}

pub users-IsLocal : IsLocal users
users-IsLocal = record {
  local = λ name t s. record {
    tenants = refl;
    users = λ o h. update_ne name o h s.users t;
    projects = λ o h. refl;
    units = λ o h. refl;
    audit_logs = λ o h. refl;
  };
}

pub audit_logs-IsLocal : IsLocal audit_logs
audit_logs-IsLocal = record {
  local = λ name t s. record {
    tenants = refl;
    users = λ o h. refl;
    projects = λ o h. refl;
    units = λ o h. refl;
    audit_logs = λ o h. update_ne name o h s.audit_logs t;
  };
}

module _ {Row : Type 0} {R : Relation Row} (local : IsLocal R) (name : String) where
  pub Confined-insert :
      (check : Db → Table Row → Row → Bool) (row : ℕ → ℕ → Row)
      → Confined name (insert_into R name check row)
  Confined-insert check row =
      Respects-insert (Elsewhere-preorder name) R name check row (λ s t e c. local.local name _ s)
        (λ s t e. local.local name _ s)

  pub Confined-update :
      (p : Row → Bool) (check : List Row → Bool) (set : ℕ → Row → Row)
      → Confined name (update_where R name p check set)
  Confined-update p check set =
      Respects-update (Elsewhere-preorder name) R name p check set (λ s t e c. local.local name _ s)

  pub Confined-delete : (p : Row → Bool) → Confined name (delete_where R name p)
  Confined-delete p =
      Respects-delete (Elsewhere-preorder name) R name p (λ s t e. local.local name _ s)

pub ruleset confined_rules = (
  respects_rules, Elsewhere-preorder, Confined-insert, Confined-update, Confined-delete,
  units-IsLocal, projects-IsLocal, users-IsLocal, audit_logs-IsLocal,
)
