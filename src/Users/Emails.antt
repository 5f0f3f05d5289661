-- ===== src/Users/Emails.antt =====
-- The emails of the users of a schema are distinct.
use mathlib.Core.Path.{subst}
use real_estate_multi_tenant.Prelude.{
  ℕ, ◌≡◌, ◌≢◌, sym, ◌∙◌, String, true, false, List, [], ◌∷◌, ◌++◌, Option, none, some, inl, inr,
  Bool-cases, str_eq, eq_iff, any, arith, All, All-append, if◌then◌else◌,
}
use real_estate_multi_tenant.Db.{UserRow, Table, Db, update, users, set_rows}
use real_estate_multi_tenant.Db.Respects.{Preorder, Respects-insert, Respects-update}
use real_estate_multi_tenant.Access.Isolation.{Logging-anything}
use real_estate_multi_tenant.Users.Repository.{
  has_email, emails_differ, accepts, new_row, has_id, still_accepts, set_fields, unchecked,
  set_inactive,
}
use real_estate_multi_tenant.Users.Actions.{UserWrites}

abbrev pub Distinct : List UserRow → Type 0
Distinct [] = Unit
Distinct (u ∷ us) = All (λ v. v.email ≢ u.email) us × Distinct us

abbrev pub TableDistinct : Option (Table UserRow) → Type 0
TableDistinct none = Unit
TableDistinct (some t) = Distinct t.rows

pub record EmailsDiffer (s : Db) : Type 0 where
  pub at : (name : String) → TableDistinct (s.users name)

none_equal :
    (email : String) (us : List UserRow)
    → any (λ v. str_eq v.email email) us ≡ false
    → All (λ v. v.email ≢ email) us
unfolding any
none_equal email [] h = tt
none_equal email (v ∷ us) h =
    (ground (arith, eq_iff v.email email), none_equal email us (ground arith))

differ-Distinct : (us : List UserRow) → emails_differ us ≡ true → Distinct us
differ-Distinct [] h = tt
differ-Distinct (u ∷ us) h =
    (none_equal u.email us (ground arith), differ-Distinct us (ground arith))

pub append-Distinct :
    (us : List UserRow) (u : UserRow)
    → All (λ v. v.email ≢ u.email) us
    → Distinct us
    → Distinct (us ++ u ∷ [])
append-Distinct [] u n h = (tt, tt)
append-Distinct (v ∷ us) u (d, n) (e, h) = (
  All-append (λ w. w.email ≢ v.email) us (u ∷ []) e ((λ same. d (sym same)), tt),
  append-Distinct us u n h,
)

inactive-email :
    (id now : ℕ) (u : UserRow) → (if has_id id u then set_inactive now u else u).email ≡ u.email
inactive-email id now u = elim (Bool-cases (has_id id u)) [ inl e ↦ rw e | inr e ↦ rw e ]

inactive-All :
    (id now : ℕ) (email : String) (us : List UserRow)
    → All (λ v. v.email ≢ email) us
    → All (λ v. v.email ≢ email) (set_rows (has_id id) (set_inactive now) us)
inactive-All id now email [] h = tt
inactive-All id now email (v ∷ us) (n, h) =
    ((λ e. n (sym (inactive-email id now v) ∙ e)), inactive-All id now email us h)

inactive-Distinct :
    (id now : ℕ) (us : List UserRow)
    → Distinct us
    → Distinct (set_rows (has_id id) (set_inactive now) us)
inactive-Distinct id now [] h = tt
inactive-Distinct id now (u ∷ us) (n, h) = (
  subst (λ email. All (λ v. v.email ≢ email) (set_rows (has_id id) (set_inactive now) us))
      (sym (inactive-email id now u)) (inactive-All id now u.email us n),
  inactive-Distinct id now us h,
)

pub record KeepsEmails (s s' : Db) : Type 0 where
  pub keep : EmailsDiffer s → EmailsDiffer s'

pub KeepsEmails-preorder : Preorder KeepsEmails
KeepsEmails-preorder = record {
  refl = λ s. record { keep = λ h. h };
  trans = λ s t u h k. record { keep = λ d. k.keep (h.keep d) };
  count = λ s n. record { keep = λ h. record { at = h.at } };
  path = λ s p. record { keep = λ h. record { at = h.at } };
}

pub update-TableDistinct :
    (f : String → Option (Table UserRow)) (schema name : String) (t : Table UserRow)
    → TableDistinct (f name)
    → Distinct t.rows
    → TableDistinct (update f schema t name)
unfolding update
update-TableDistinct f schema name t h d = elim (Bool-cases (str_eq schema name)) [
  | inl same ↦ rw same d
  | inr differs ↦ rw differs h
]

pub write-KeepsEmails :
    (schema : String) (s : Db) (t t' : Table UserRow)
    → s.users schema ≡ some t
    → (Distinct t.rows → Distinct t'.rows)
    → KeepsEmails s (users.write schema t' s)
write-KeepsEmails schema s t t' e k = record {
  keep = λ h. record {
    at =
        λ name. update-TableDistinct s.users schema name t' (h.at name) (k (rw e at (h.at schema)));
  };
}

pub accepted :
    (schema : String) (s : Db) (t : Table UserRow) (u : UserRow)
    → accepts schema s t u ≡ true
    → All (λ v. v.email ≢ u.email) t.rows
unfolding accepts has_email
accepted schema s t u h = none_equal u.email t.rows (ground arith)

module _ (hash : ℕ → String → String) (schema : String) where
  pub KeepsEmails-writes : UserWrites hash KeepsEmails schema
  KeepsEmails-writes = record {
    inserting = λ dto h.
        Respects-insert KeepsEmails-preorder users schema (accepts schema) (new_row dto h)
          (λ s t e c.
            write-KeepsEmails schema s t _ e (append-Distinct t.rows _ (accepted schema s t _ c)))
          (λ s t e. write-KeepsEmails schema s t _ e (λ d. d));
    setting = λ id salt dto.
        Respects-update KeepsEmails-preorder users schema (has_id id) (still_accepts schema)
          (set_fields hash salt dto)
          (λ s t e c.
            write-KeepsEmails schema s t _ e (λ d. differ-Distinct _ (ground (arith, c))));
    deleting = λ id.
        Respects-update KeepsEmails-preorder users schema (has_id id) unchecked set_inactive
          (λ s t e c.
            write-KeepsEmails schema s t _ e (inactive-Distinct id (s.time s.statements) t.rows));
    logging =
        Logging-anything KeepsEmails-preorder schema
          λ s t. record { keep = λ h. record { at = h.at } };
  }
