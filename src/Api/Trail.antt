-- ===== src/Api/Trail.antt =====
-- The audit log only grows: no entry is changed or removed by any request.
use mathlib.Core.Path.{subst}
use real_estate_multi_tenant.Prelude.{
  String, ◌≡◌, refl, ◌∙◌, List, [], ◌∷◌, ◌++◌, Option, none, some, inl, inr, Bool-cases, str_eq,
  eq_iff,
}
use real_estate_multi_tenant.Db.{AuditRow, Table, Db, audit_logs, update}
use real_estate_multi_tenant.Db.Respects.{Preorder, Respects-insert}
use real_estate_multi_tenant.Access.AuditLogger.{is_audit_action, audit_row}
use real_estate_multi_tenant.Access.Isolation.{Logging}
use real_estate_multi_tenant.Tenants.Creating.{TenantWrites, TenantWrites-RouteWrites}
use real_estate_multi_tenant.Api.Routes.{Outside, ApiRequest, serve_all}
use real_estate_multi_tenant.Api.Actions.{ApiWrites, serve_all-R}
use real_estate_multi_tenant.Api.Free.{
  free_users, free_projects, free_units, any_admin, free_tenants,
}

-- The first list begins the second.
abbrev pub Begins : List AuditRow → List AuditRow → Type 0
Begins [] ys = Unit
Begins (x ∷ xs) [] = ⊥
Begins (x ∷ xs) (y ∷ ys) = (x ≡ y) × Begins xs ys

Begins-refl : (xs : List AuditRow) → Begins xs xs
Begins-refl [] = tt
Begins-refl (x ∷ xs) = (refl, Begins-refl xs)

Begins-trans : (xs ys zs : List AuditRow) → Begins xs ys → Begins ys zs → Begins xs zs
Begins-trans [] ys zs h k = tt
Begins-trans (x ∷ xs) (y ∷ ys) (z ∷ zs) (e, h) (f, k) = (e ∙ f, Begins-trans xs ys zs h k)
Begins-trans (x ∷ xs) [] zs h k = absurd h
Begins-trans (x ∷ xs) (y ∷ ys) [] h k = absurd k

Begins-append : (xs ys : List AuditRow) → Begins xs (xs ++ ys)
Begins-append [] ys = tt
Begins-append (x ∷ xs) ys = (refl, Begins-append xs ys)

abbrev pub TableExtends : Option (Table AuditRow) → Option (Table AuditRow) → Type 0
TableExtends none t' = Unit
TableExtends (some t) none = ⊥
TableExtends (some t) (some t') = Begins t.rows t'.rows

TableExtends-refl : (t : Option (Table AuditRow)) → TableExtends t t
TableExtends-refl none = tt
TableExtends-refl (some t) = Begins-refl t.rows

TableExtends-trans :
    (t u v : Option (Table AuditRow)) → TableExtends t u → TableExtends u v → TableExtends t v
TableExtends-trans none u v h k = tt
TableExtends-trans (some t) none v h k = absurd h
TableExtends-trans (some t) (some u) none h k = absurd k
TableExtends-trans (some t) (some u) (some v) h k = Begins-trans t.rows u.rows v.rows h k

pub record LogsGrow (s s' : Db) : Type 0 where
  pub at : (name : String) → TableExtends (s.audit_logs name) (s'.audit_logs name)

LogsGrow-preorder : Preorder LogsGrow
LogsGrow-preorder = record {
  refl = λ s. record { at = λ name. TableExtends-refl (s.audit_logs name) };
  trans = λ s t u h k. record { at = λ name. TableExtends-trans _ _ _ (h.at name) (k.at name) };
  count = λ s n. record { at = λ name. TableExtends-refl (s.audit_logs name) };
  path = λ s p. record { at = λ name. TableExtends-refl (s.audit_logs name) };
}

LogsGrow-write :
    (schema : String) (s : Db) (t' : Table AuditRow)
    → TableExtends (s.audit_logs schema) (some t')
    → LogsGrow s (audit_logs.write schema t' s)
unfolding update
LogsGrow-write schema s t' h = record {
  at = λ name. elim (Bool-cases (str_eq schema name)) [
    | inl same ↦
        rw same
          (subst (λ n. TableExtends (s.audit_logs n) (some t')) ((eq_iff schema name).0 same) h)
    | inr differs ↦ rw differs (TableExtends-refl (s.audit_logs name))
  ];
}

appending : (schema : String) → Logging LogsGrow schema
appending schema log =
    Respects-insert LogsGrow-preorder audit_logs schema is_audit_action (audit_row log)
      (λ s t e c. LogsGrow-write schema s _ (rw e (Begins-append t.rows _)))
      (λ s t e. LogsGrow-write schema s _ (rw e (Begins-refl t.rows)))

same_logs : (s s' : Db) → s'.audit_logs ≡ s.audit_logs → LogsGrow s s'
same_logs s s' e = record { at = λ name. rw e (TableExtends-refl (s.audit_logs name)) }

trail_tenants : TenantWrites LogsGrow
trail_tenants =
    free_tenants LogsGrow-preorder (λ name s t. same_logs s _ refl)
      (any_admin LogsGrow-preorder (λ name s t. same_logs s _ refl))
      (record {
        making = λ name s. same_logs s _ refl;
        indexing = λ name index s. same_logs s _ refl;
        add_users = λ name s e. same_logs s _ refl;
        add_projects = λ name s e. same_logs s _ refl;
        add_units = λ name s e. same_logs s _ refl;
        add_audit_logs = λ name s e. LogsGrow-write name s _ (rw e tt);
      })
      (λ s0 s h. record { at = h.at })

trail_api : (o : Outside) → ApiWrites o LogsGrow
trail_api o = record {
  users = λ schema.
      free_users LogsGrow-preorder schema (appending schema) o.hash
        (λ name s t. same_logs s _ refl);
  projects = λ schema.
      free_projects LogsGrow-preorder schema (appending schema) (λ name s t. same_logs s _ refl);
  units = λ schema.
      free_units LogsGrow-preorder schema (appending schema) (λ name s t. same_logs s _ refl);
  tenants = TenantWrites-RouteWrites LogsGrow-preorder trail_tenants o.pending o.hash;
}

-- Whatever requests come to the API, in whatever order, of whichever users, and whichever statements
-- fail, the entries of each schema's audit log stay as they are, in their order; new ones come
-- behind them.
pub serve_all-LogsGrow :
    (o : Outside) (requests : List ApiRequest) (s : Db) → LogsGrow s (serve_all o requests s)
serve_all-LogsGrow o requests s = serve_all-R o LogsGrow-preorder (trail_api o) requests s
