-- ===== src/Units/Valid.antt =====
-- Every request to the units, and the sale, keeps the invariant of the units.
use real_estate_multi_tenant.Prelude.{
  ℕ, suc, ◌≡◌, refl, String, Bool, true, List, [], ◌∷◌, Option, none, some, inl, inr, Bool-cases,
  str_eq, arith, All-append,
}
use real_estate_multi_tenant.Db.{
  UnitRow, Table, Db, update, units, update_where, insert_into, insert_into,
}
use real_estate_multi_tenant.Db.Respects.{Preorder, Respects, Respects-insert, Respects-update}
use real_estate_multi_tenant.Units.Dto.{CreateUnitBody, create_unit_dto}
use real_estate_multi_tenant.Units.Routes.{handle}
use real_estate_multi_tenant.Units.Service
use real_estate_multi_tenant.Access.Isolation.{Logging-anything}
use real_estate_multi_tenant.Access.Request.{Verified}
use real_estate_multi_tenant.Units.Repository.{
  refers, new_row, has_id, unchecked, set_fields, is_bookable, set_booked, is_sellable, set_sold,
  set_inactive,
}
use real_estate_multi_tenant.Units.Actions.{UnitWrites, handle-Keeps, sell_service-Respects}
use real_estate_multi_tenant.Units.Lifecycle.{UnitRequest, serve}
use real_estate_multi_tenant.Units.Invariant.{
  RowValid, TableValid, OptionValid, UnitsValid, set_rows-RowValid, set_rows-Unique,
  set_fields-RowValid, set_inactive-RowValid, set_booked-RowValid, set_sold-RowValid, All-suc,
  Unique-append,
}

-- An invariant as a preorder: the next state has it if the first has.
abbrev pub KeepsValid : Db → Db → Type 0
KeepsValid s s' = UnitsValid s → UnitsValid s'

pub KeepsValid-preorder : Preorder KeepsValid
KeepsValid-preorder = record {
  refl = λ s h. h;
  trans = λ s t u h k v. k (h v);
  count = λ s n h. record { at = h.at };
  path = λ s p h. record { at = h.at };
}

OptionValid-update :
    (f : String → Option (Table UnitRow)) (schema name : String) (t' : Table UnitRow)
    → TableValid t'
    → OptionValid (f name)
    → OptionValid (update f schema t' name)
unfolding update
OptionValid-update f schema name t' v h = elim (Bool-cases (str_eq schema name)) [
  | inl same ↦ rw same v
  | inr differs ↦ rw differs h
]

KeepsValid-write :
    (schema : String) (s : Db) (t t' : Table UnitRow)
    → s.units schema ≡ some t
    → (TableValid t → TableValid t')
    → KeepsValid s (units.write schema t' s)
KeepsValid-write schema s t t' e keep h = record {
  at = λ name. OptionValid-update s.units schema name t' (keep (rw e at (h.at schema))) (h.at name);
}

-- A table that is new.
pub KeepsValid-new :
    (name : String) (s : Db)
    → s.units name ≡ none
    → KeepsValid s (units.write name (record { rows = []; next = 1 }) s)
KeepsValid-new schema s e h = record {
  at = λ name.
      OptionValid-update s.units schema name (record { rows = []; next = 1 })
        (record { rows = tt; unique = tt }) (h.at name);
}

module _ (schema : String) where
  update-KeepsValid :
      (p : UnitRow → Bool) (set : ℕ → UnitRow → UnitRow)
      → ((now : ℕ) (u : UnitRow) → (set now u).id ≡ u.id)
      → ((next now : ℕ) (u : UnitRow) → p u ≡ true → RowValid next u → RowValid next (set now u))
      → Respects KeepsValid (update_where units schema p unchecked set)
  update-KeepsValid p set same keep =
      Respects-update KeepsValid-preorder units schema p unchecked set λ s t e _.
        let now = s.time s.statements in
        KeepsValid-write schema s t _ e λ v. record {
          rows = set_rows-RowValid t.next p (set now) (λ u. keep t.next now u) t.rows v.rows;
          unique = set_rows-Unique p (set now) (λ u. same now u) t.rows v.unique;
        }

  insert-KeepsValid :
      (body : CreateUnitBody)
      → Respects KeepsValid
          (insert_into units schema (refers schema) (new_row (create_unit_dto body)))
  unfolding create_unit_dto
  insert-KeepsValid body =
      Respects-insert KeepsValid-preorder units schema (refers schema)
        (new_row (create_unit_dto body))
        (λ s t e c. KeepsValid-write schema s t _ e λ v. record {
          rows =
              All-append (RowValid (suc t.next)) t.rows _ (All-suc t.next t.rows v.rows)
                ((omega arith, (refl, refl, refl)), tt);
          unique = Unique-append t.next t.rows _ refl v.rows v.unique;
        })
        (λ s t e.
          KeepsValid-write schema s t _ e
            λ v. record { rows = All-suc t.next t.rows v.rows; unique = v.unique })

  pub valid_writes : UnitWrites KeepsValid schema
  valid_writes = record {
    inserting = insert-KeepsValid;
    setting = λ id dto.
        update-KeepsValid (has_id id) (set_fields dto) (λ now u. refl)
          (λ next now u _. set_fields-RowValid next dto now u);
    booking = λ id user_id.
        update-KeepsValid (is_bookable id) (set_booked user_id) (λ now u. refl)
          (set_booked-RowValid id user_id);
    selling =
        λ id. update-KeepsValid (is_sellable id) set_sold (λ now u. refl) (set_sold-RowValid id);
    deleting = λ id.
        update-KeepsValid (has_id id) set_inactive (λ now u. refl)
          (λ next now u _. set_inactive-RowValid next now u);
    logging = Logging-anything KeepsValid-preorder schema λ s t h. record { at = h.at };
  }

-- Whatever requests come to the units, and whichever statements fail, in every schema the ids stay
-- distinct and below the sequence; an available unit has no holder and no time of booking or sale,
-- a booked one has both a holder and a time of booking and no time of sale, and a sold one has a
-- time of sale, and a holder exactly if it has a time of booking.
pub serve-UnitsValid :
    (order : List UnitRow → List UnitRow) (verify : String → Verified) (requests : List UnitRequest)
    (s : Db)
    → UnitsValid s
    → UnitsValid (serve order verify requests s)
unfolding serve
serve-UnitsValid order verify [] s h = h
serve-UnitsValid order verify (r ∷ rest) s h =
    serve-UnitsValid order verify rest (handle order r.request r.valid verify r.call s).1
      ((handle-Keeps KeepsValid-preorder order r.request r.valid verify r.call valid_writes).at s h)

-- The internal sale keeps the invariant too.
pub mark_as_sold-UnitsValid :
    (id : ℕ) (schema : String) (s : Db)
    → UnitsValid s
    → UnitsValid (Service.mark_as_sold id schema s).1
mark_as_sold-UnitsValid id schema s =
    (sell_service-Respects KeepsValid-preorder schema (valid_writes schema) id).at s
