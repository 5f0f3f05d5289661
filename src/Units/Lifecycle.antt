-- ===== src/Units/Lifecycle.antt =====
-- How a unit may change: its status goes forward only, and who holds it stays as it is.
use real_estate_multi_tenant.Prelude.{
  ℕ, ◌≤◌, ◌≡◌, refl, ◌∙◌, String, Bool, true, false, List, [], ◌∷◌, ◌++◌, Option, none, some, inl,
  inr, Bool-cases, str_eq, eq_iff, arith, if◌then◌else◌,
}
use real_estate_multi_tenant.Db.{
  UnitStatus, available, booked, sold, UnitRow, Table, Db, update, set_rows, units, update_where,
}
use real_estate_multi_tenant.Db.Respects.{Preorder, Respects, Respects-insert, Respects-update}
use real_estate_multi_tenant.Units.Repository.{
  refers, new_row, has_id, unchecked, set_fields, is_bookable, set_booked, is_sellable, set_sold,
  set_inactive,
}
use real_estate_multi_tenant.Units.Dto.{UpdateUnitDto, create_unit_dto}
use real_estate_multi_tenant.Units.Actions.{UnitWrites, sell_service-Respects}
use real_estate_multi_tenant.Units.Service
use real_estate_multi_tenant.Units.Routes.{UnitCall, handle}
use real_estate_multi_tenant.Access.Isolation.{Logging-anything}
use real_estate_multi_tenant.Access.Request.{Verified, Request}
use mathlib.Core.Path.{subst}

-- Available, then booked, then sold.
abbrev pub stage : UnitStatus → ℕ
stage available = 0
stage booked = 1
stage sold = 2

-- `v` is a later state of the unit `u`.
pub record Evolves (u v : UnitRow) : Type 0 where
  pub same_id : v.id ≡ u.id
  pub same_project : v.project_id ≡ u.project_id
  pub forward : stage u.status ≤ stage v.status
  pub holder : 1 ≤ stage u.status → v.booked_by ≡ u.booked_by
  pub since : 1 ≤ stage u.status → v.booked_at ≡ u.booked_at
  pub sale : 2 ≤ stage u.status → v.sold_at ≡ u.sold_at

pub Evolves-refl : (u : UnitRow) → Evolves u u
Evolves-refl u = ground arith

pub Evolves-trans : (u v w : UnitRow) → Evolves u v → Evolves v w → Evolves u w
Evolves-trans u v w h k = record {
  same_id = k.same_id ∙ h.same_id;
  same_project = k.same_project ∙ h.same_project;
  forward = omega (arith, h.forward, k.forward);
  holder = λ p. k.holder (omega (arith, h.forward)) ∙ h.holder p;
  since = λ p. k.since (omega (arith, h.forward)) ∙ h.since p;
  sale = λ p. k.sale (omega (arith, h.forward)) ∙ h.sale p;
}

-- Every unit of `xs` is at its place in `ys`, in a later state.
abbrev pub Grows : List UnitRow → List UnitRow → Type 0
Grows [] ys = Unit
Grows (x ∷ xs) [] = ⊥
Grows (x ∷ xs) (y ∷ ys) = Evolves x y × Grows xs ys

pub Grows-refl : (xs : List UnitRow) → Grows xs xs
Grows-refl [] = tt
Grows-refl (x ∷ xs) = (Evolves-refl x, Grows-refl xs)

Grows-trans : (xs ys zs : List UnitRow) → Grows xs ys → Grows ys zs → Grows xs zs
Grows-trans [] ys zs h k = tt
Grows-trans (x ∷ xs) (y ∷ ys) (z ∷ zs) (e, h) (f, k) =
    (Evolves-trans x y z e f, Grows-trans xs ys zs h k)
Grows-trans (x ∷ xs) [] zs h k = absurd h
Grows-trans (x ∷ xs) (y ∷ ys) [] h k = absurd k

Grows-append : (xs ys : List UnitRow) → Grows xs (xs ++ ys)
Grows-append [] ys = tt
Grows-append (x ∷ xs) ys = (Evolves-refl x, Grows-append xs ys)

Evolves-if : (b : Bool) (u v : UnitRow) → (b ≡ true → Evolves u v) → Evolves u (if b then v else u)
Evolves-if true u v h = h refl
Evolves-if false u v h = Evolves-refl u

Grows-set_rows :
    (p : UnitRow → Bool) (f : UnitRow → UnitRow)
    → ((u : UnitRow) → p u ≡ true → Evolves u (f u))
    → (xs : List UnitRow) → Grows xs (set_rows p f xs)
Grows-set_rows p f h [] = tt
Grows-set_rows p f h (x ∷ xs) = (Evolves-if (p x) x (f x) (h x), Grows-set_rows p f h xs)

set_fields-Evolves :
    (dto : UpdateUnitDto) (now : ℕ) (u : UnitRow) → Evolves u (set_fields dto now u)
set_fields-Evolves dto now u = ground arith

set_inactive-Evolves : (now : ℕ) (u : UnitRow) → Evolves u (set_inactive now u)
set_inactive-Evolves now u = ground arith

set_booked-Evolves :
    (id user_id now : ℕ) (u : UnitRow)
    → is_bookable id u ≡ true
    → Evolves u (set_booked user_id now u)
unfolding is_bookable
set_booked-Evolves id user_id now u h = ground arith

set_sold-Evolves : (id now : ℕ) (u : UnitRow) → is_sellable id u ≡ true → Evolves u (set_sold now u)
unfolding is_sellable
set_sold-Evolves id now u h = ground arith

-- The units of a schema: rows are never taken away, and each evolves.
abbrev pub TableGrows : Option (Table UnitRow) → Option (Table UnitRow) → Type 0
TableGrows none t' = Unit
TableGrows (some t) none = ⊥
TableGrows (some t) (some t') = Grows t.rows t'.rows

TableGrows-refl : (t : Option (Table UnitRow)) → TableGrows t t
TableGrows-refl none = tt
TableGrows-refl (some t) = Grows-refl t.rows

TableGrows-trans :
    (t u v : Option (Table UnitRow)) → TableGrows t u → TableGrows u v → TableGrows t v
TableGrows-trans none u v h k = tt
TableGrows-trans (some t) none v h k = absurd h
TableGrows-trans (some t) (some u) none h k = absurd k
TableGrows-trans (some t) (some u) (some v) h k = Grows-trans t.rows u.rows v.rows h k

pub record UnitsGrow (s s' : Db) : Type 0 where
  pub at : (name : String) → TableGrows (s.units name) (s'.units name)

pub UnitsGrow-preorder : Preorder UnitsGrow
UnitsGrow-preorder = record {
  refl = λ s. record { at = λ name. TableGrows-refl (s.units name) };
  trans = λ s t u h k. record { at = λ name. TableGrows-trans _ _ _ (h.at name) (k.at name) };
  count = λ s n. record { at = λ name. TableGrows-refl (s.units name) };
  path = λ s p. record { at = λ name. TableGrows-refl (s.units name) };
}

TableGrows-update :
    (f : String → Option (Table UnitRow)) (schema name : String) (t t' : Table UnitRow)
    → f schema ≡ some t
    → Grows t.rows t'.rows
    → TableGrows (f name) (update f schema t' name)
unfolding update
TableGrows-update f schema name t t' e h = elim (Bool-cases (str_eq schema name)) [
  | inl same ↦
      rw same (subst (λ n. TableGrows (f n) (some t')) ((eq_iff schema name).0 same) (rw e h))
  | inr differs ↦ rw differs (TableGrows-refl (f name))
]

UnitsGrow-write :
    (schema : String) (s : Db) (t t' : Table UnitRow)
    → s.units schema ≡ some t
    → Grows t.rows t'.rows
    → UnitsGrow s (units.write schema t' s)
UnitsGrow-write schema s t t' e h = record {
  at = λ name. TableGrows-update s.units schema name t t' e h;
}

-- A table that is new.
pub UnitsGrow-new :
    (name : String) (s : Db)
    → s.units name ≡ none
    → UnitsGrow s (units.write name (record { rows = []; next = 1 }) s)
unfolding update
UnitsGrow-new schema s e = record {
  at = λ name. elim (Bool-cases (str_eq schema name)) [
    | inl same ↦ rw same (
        subst (λ n. TableGrows (s.units n) (some (record { rows = []; next = 1 })))
          ((eq_iff schema name).0 same) (rw e tt))
    | inr differs ↦ rw differs (TableGrows-refl (s.units name))
  ];
}

module _ (schema : String) where
  update-UnitsGrow :
      (p : UnitRow → Bool) (set : ℕ → UnitRow → UnitRow)
      → ((now : ℕ) (u : UnitRow) → p u ≡ true → Evolves u (set now u))
      → Respects UnitsGrow (update_where units schema p unchecked set)
  update-UnitsGrow p set h =
      Respects-update UnitsGrow-preorder units schema p unchecked set λ s t e _.
        UnitsGrow-write schema s t _ e (Grows-set_rows p (set (s.time s.statements)) (h _) t.rows)

  pub growing_writes : UnitWrites UnitsGrow schema
  growing_writes = record {
    inserting = λ body.
        Respects-insert UnitsGrow-preorder units schema (refers schema)
          (new_row (create_unit_dto body))
          (λ s t e c. UnitsGrow-write schema s t _ e (Grows-append t.rows _))
          (λ s t e. UnitsGrow-write schema s t _ e (Grows-refl t.rows));
    setting = λ id dto.
        update-UnitsGrow (has_id id) (set_fields dto) (λ now u _. set_fields-Evolves dto now u);
    booking = λ id user_id.
        update-UnitsGrow (is_bookable id) (set_booked user_id) (set_booked-Evolves id user_id);
    selling = λ id. update-UnitsGrow (is_sellable id) set_sold (set_sold-Evolves id);
    deleting =
        λ id. update-UnitsGrow (has_id id) set_inactive (λ now u _. set_inactive-Evolves now u);
    logging =
        Logging-anything UnitsGrow-preorder schema
          λ s t. record { at = λ name. TableGrows-refl (s.units name) };
  }

-- The requests that reach the units, one after the other, with the answers of the validation.
pub record UnitRequest : Type 0 where
  pub request : Request
  pub valid : Bool
  pub call : UnitCall

module _ (order : List UnitRow → List UnitRow) (verify : String → Verified) where
  unfoldable pub serve : List UnitRequest → Db → Db
  serve [] s = s
  serve (r ∷ rest) s = serve rest (handle order r.request r.valid verify r.call s).1

-- The internal sale keeps to the same rules.
pub mark_as_sold-UnitsGrow :
    (id : ℕ) (schema : String) (s : Db) → UnitsGrow s (Service.mark_as_sold id schema s).1
mark_as_sold-UnitsGrow id schema s =
    (sell_service-Respects UnitsGrow-preorder schema (growing_writes schema) id).at s
