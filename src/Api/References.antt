-- ===== src/Api/References.antt =====
-- Each unit belongs to a project of its schema.
use mathlib.Core.Path.{subst}
use real_estate_multi_tenant.Prelude.{
  ℕ, String, ◌≡◌, refl, ◌∙◌, Bool, true, List, [], ◌∷◌, ◌++◌, Option, none, some, inl, inr,
  Bool-cases, str_eq, eq_iff, any, ◌==◌, All, All-append, arith,
}
use real_estate_multi_tenant.Db.{
  UnitRow, ProjectRow, Table, Db, units, projects, update, set_rows, update_where,
}
use real_estate_multi_tenant.Db.Respects.{Preorder, Respects, Respects-insert, Respects-update}
use real_estate_multi_tenant.Access.Isolation.{Logging, Logging-anything}
use real_estate_multi_tenant.Schemas.Migrations.{empty}
use real_estate_multi_tenant.Tenants.Creating.{TenantWrites, TenantWrites-RouteWrites}
use real_estate_multi_tenant.Units.Dto.{create_unit_dto}
use real_estate_multi_tenant.Units.Repository as UnitRepository
use real_estate_multi_tenant.Units.Repository.{has_project, refers}
use real_estate_multi_tenant.Units.Actions.{UnitWrites}
use real_estate_multi_tenant.Projects.Repository as ProjectRepository
use real_estate_multi_tenant.Projects.Actions.{ProjectWrites}
use real_estate_multi_tenant.Api.Routes.{Outside}
use real_estate_multi_tenant.Api.Actions.{ApiWrites}
use real_estate_multi_tenant.Api.Free.{free_users, any_admin, free_tenants}

abbrev pub Refer : Option (Table ProjectRow) → Option (Table UnitRow) → Type 0
Refer ps none = Unit
Refer ps (some us) = All (λ u. has_project ps u.project_id ≡ true) us.rows

pub record References (s : Db) : Type 0 where
  pub at : (name : String) → Refer (s.projects name) (s.units name)

pub record KeepsReferences (s s' : Db) : Type 0 where
  pub keep : References s → References s'

pub KeepsReferences-preorder : Preorder KeepsReferences
KeepsReferences-preorder = record {
  refl = λ s. record { keep = λ h. h };
  trans = λ s t u h k. record { keep = λ r. k.keep (h.keep r) };
  count = λ s n. record { keep = λ h. record { at = h.at } };
  path = λ s p. record { keep = λ h. record { at = h.at } };
}

-- Every project that was there is there.
abbrev Known : Option (Table ProjectRow) → Option (Table ProjectRow) → Type 0
Known ps ps' = (id : ℕ) → has_project ps id ≡ true → has_project ps' id ≡ true

Refer-Known :
    (ps ps' : Option (Table ProjectRow)) (us : Option (Table UnitRow))
    → Known ps ps'
    → Refer ps us
    → Refer ps' us
Refer-Known ps ps' none k h = tt
Refer-Known ps ps' (some us) k h = go us.rows h
  where
    go :
        (rows : List UnitRow)
        → All (λ u. has_project ps u.project_id ≡ true) rows
        → All (λ u. has_project ps' u.project_id ≡ true) rows
    go [] h = tt
    go (u ∷ rows) (e, h) = (k u.project_id e, go rows h)

units-write :
    (schema : String) (s : Db) (t' : Table UnitRow)
    → (References s → Refer (s.projects schema) (some t'))
    → KeepsReferences s (units.write schema t' s)
unfolding update
units-write schema s t' f = record {
  keep = λ h. record {
    at = λ name. elim (Bool-cases (str_eq schema name)) [
      | inl same ↦
          rw same (subst (λ n. Refer (s.projects n) (some t')) ((eq_iff schema name).0 same) (f h))
      | inr differs ↦ rw differs (h.at name)
    ];
  };
}

projects-write :
    (schema : String) (s : Db) (t' : Table ProjectRow)
    → Known (s.projects schema) (some t')
    → KeepsReferences s (projects.write schema t' s)
unfolding update
projects-write schema s t' k = record {
  keep = λ h. record {
    at = λ name. elim (Bool-cases (str_eq schema name)) [
      | inl same ↦
          let at : schema ≡ name = (eq_iff schema name).0 same in
          rw same (
            Refer-Known (s.projects name) (some t') (s.units name)
              (subst (λ n. Known (s.projects n) (some t')) at k) (h.at name))
      | inr differs ↦ rw differs (h.at name)
    ];
  };
}

module _ (ps : Option (Table ProjectRow)) (p : UnitRow → Bool) (f : UnitRow → UnitRow)
    (same : (u : UnitRow) → (f u).project_id ≡ u.project_id) where
  set-All :
      (us : List UnitRow)
      → All (λ u. has_project ps u.project_id ≡ true) us
      → All (λ u. has_project ps u.project_id ≡ true) (set_rows p f us)
  set-All [] h = tt
  set-All (u ∷ us) (e, h) = elim (Bool-cases (p u)) [
    | inl hit ↦ rw hit (rw (same u) e, set-All us h)
    | inr miss ↦ rw miss (e, set-All us h)
  ]

any-append :
    (q : ProjectRow → Bool) (xs ys : List ProjectRow) → any q xs ≡ true → any q (xs ++ ys) ≡ true
unfolding any
any-append q [] ys h = absurd (ground (arith, h))
any-append q (x ∷ xs) ys h = elim (Bool-cases (q x)) [
  | inl hit ↦ rw hit
  | inr miss ↦ rw miss (any-append q xs ys (rw miss at h))
]

module _ (p : ProjectRow → Bool) (f : ProjectRow → ProjectRow)
    (same : (x : ProjectRow) → (f x).id ≡ x.id) (id : ℕ) where
  any-set :
      (xs : List ProjectRow) → any (λ x. x.id == id) (set_rows p f xs) ≡ any (λ x. x.id == id) xs
  unfolding any
  any-set [] = refl
  any-set (x ∷ xs) = elim (Bool-cases (p x)) [
    | inl hit ↦ rw (hit, same x, any-set xs)
    | inr miss ↦ rw (miss, any-set xs)
  ]

module _ (schema : String) where
  update-unit :
      (p : UnitRow → Bool) (set : ℕ → UnitRow → UnitRow)
      → ((now : ℕ) (u : UnitRow) → (set now u).project_id ≡ u.project_id)
      → Respects KeepsReferences (update_where units schema p UnitRepository.unchecked set)
  update-unit p set same =
      Respects-update KeepsReferences-preorder units schema p UnitRepository.unchecked set
        (λ s t e c. units-write schema s _ (λ h.
          set-All (s.projects schema) p (set (s.time s.statements)) (same _) t.rows
            (rw e at (h.at schema))))

  anything : Logging KeepsReferences schema
  anything =
      Logging-anything KeepsReferences-preorder schema
        (λ s t. record { keep = λ h. record { at = h.at } })

  referring_units : UnitWrites KeepsReferences schema
  unfolding refers
  referring_units = record {
    inserting = λ body.
        Respects-insert KeepsReferences-preorder units schema (refers schema)
          (UnitRepository.new_row (create_unit_dto body))
          (λ s t e c. units-write schema s _ (λ h.
            All-append (λ u. has_project (s.projects schema) u.project_id ≡ true) t.rows _
              (rw e at (h.at schema)) (c, tt)))
          (λ s t e. units-write schema s _ (λ h. rw e at (h.at schema)));
    setting = λ id dto. update-unit _ _ (λ now u. refl);
    booking = λ id user_id. update-unit _ _ (λ now u. refl);
    selling = λ id. update-unit _ _ (λ now u. refl);
    deleting = λ id. update-unit _ _ (λ now u. refl);
    logging = anything;
  }

  update-project :
      (p : ProjectRow → Bool) (check : List ProjectRow → Bool) (set : ℕ → ProjectRow → ProjectRow)
      → ((now : ℕ) (x : ProjectRow) → (set now x).id ≡ x.id)
      → Respects KeepsReferences (update_where projects schema p check set)
  unfolding UnitRepository.refers
  update-project p check set same =
      Respects-update KeepsReferences-preorder projects schema p check set (λ s t e c.
        projects-write schema s _
          (λ id h. any-set p (set (s.time s.statements)) (same _) id t.rows ∙ (rw e at h)))

  referred_projects : ProjectWrites KeepsReferences schema
  referred_projects = record {
    inserting = λ dto.
        Respects-insert KeepsReferences-preorder projects schema (ProjectRepository.accepts dto)
          (ProjectRepository.new_row dto)
          (λ s t e c. projects-write schema s _ (λ id h. any-append _ t.rows _ (rw e at h)))
          (λ s t e. projects-write schema s _ (λ id h. rw e at h));
    setting = λ id dto. update-project _ _ _ (λ now x. refl);
    deleting = λ id. update-project _ _ _ (λ now x. refl);
    logging = anything;
  }

none-Known : (ps' : Option (Table ProjectRow)) → Known none ps'
none-Known ps' id h = absurd (ground (arith, h))

referring_tenants : TenantWrites KeepsReferences
referring_tenants =
    free_tenants KeepsReferences-preorder (λ name s t. record { keep = λ h. record { at = h.at } })
      (any_admin KeepsReferences-preorder (λ name s t. record { keep = λ h. record { at = h.at } }))
      (record {
        making = λ name s. record { keep = λ h. record { at = h.at } };
        indexing = λ name index s. record { keep = λ h. record { at = h.at } };
        add_users = λ name s e. record { keep = λ h. record { at = h.at } };
        add_projects = λ name s e. projects-write name s _ (rw e (none-Known (some empty)));
        add_units = λ name s e. units-write name s _ (λ h. tt);
        add_audit_logs = λ name s e. record { keep = λ h. record { at = h.at } };
      })
      (λ s0 s k. record { keep = λ h. record { at = (k.keep h).at } })

pub referring_api : (o : Outside) → ApiWrites o KeepsReferences
referring_api o = record {
  users = λ schema.
      free_users KeepsReferences-preorder schema (anything schema) o.hash
        (λ name s t. record { keep = λ h. record { at = h.at } });
  projects = referred_projects;
  units = referring_units;
  tenants = TenantWrites-RouteWrites KeepsReferences-preorder referring_tenants o.pending o.hash;
}
