-- ===== src/Units/Race.antt =====
-- Bookings of one unit that overlap: the check and the update of `bookUnit` are two statements, and
-- any other request may come between them.
use real_estate_multi_tenant.Prelude.{
  ℕ, suc, ◌≤◌, ◌≡◌, ap, ◌⊎◌, inl, inr, String, true, List, [], ◌∷◌, some, length, any, ◌==◌, arith,
}
use real_estate_multi_tenant.Db.{UnitRow, Db, ok}
use real_estate_multi_tenant.Units.Repository
use real_estate_multi_tenant.Units.Repository.{
  status_eq, has_id, is_bookable, set_booked, unchecked,
}
use real_estate_multi_tenant.Units.Service
use real_estate_multi_tenant.Units.Lifecycle.{UnitsGrow, UnitsGrow-preorder, growing_writes}
use real_estate_multi_tenant.Units.Actions.{check_available-Respects, book_unit-Respects}
use real_estate_multi_tenant.Units.Invariant.{UnitsValid}
use real_estate_multi_tenant.Units.Valid.{KeepsValid-preorder, valid_writes}
use real_estate_multi_tenant.Units.Taken.{Gone, TableGrows-OptionTaken, won-Gone, Gone-lost}

-- Bookings of one unit in progress: those that passed the check, and those that were confirmed.
pub record Race : Type 0 where
  pub db : Db
  pub waiting : List ℕ
  pub confirmed : List ℕ

-- One statement of one booking, or a step of any other request. A booking whose check passed may
-- update at any later time, as often as it likes; `other` is a step that keeps to the lifecycle and
-- the invariant of the units.
pub data Step (id : ℕ) (schema : String) : Race → Race → Type 0 where
  check :
      (r : Race) (user_id : ℕ) (u : UnitRow)
      → (Service.check_available id schema r.db).0 ≡ ok u
      → Step id schema r (record r {
        db = (Service.check_available id schema r.db).1;
        waiting = user_id ∷ r.waiting;
      })
  confirm :
      (r : Race) (user_id : ℕ) (u : UnitRow)
      → any (λ w. w == user_id) r.waiting ≡ true
      → (Repository.book_unit id user_id schema r.db).0 ≡ ok (some u)
      → Step id schema r (record r {
        db = (Repository.book_unit id user_id schema r.db).1;
        confirmed = user_id ∷ r.confirmed;
      })
  lose :
      (r : Race) (user_id : ℕ)
      → any (λ w. w == user_id) r.waiting ≡ true
      → ¬ ((u : UnitRow) × ((Repository.book_unit id user_id schema r.db).0 ≡ ok (some u)))
      → Step id schema r (record r { db = (Repository.book_unit id user_id schema r.db).1 })
  other :
      (r : Race) (s : Db)
      → UnitsGrow r.db s
      → (UnitsValid r.db → UnitsValid s)
      → Step id schema r (record r { db = s })

pub data Steps (id : ℕ) (schema : String) (r : Race) : Race → Type 0 where
  here : Steps id schema r r
  next : {q p : Race} → Steps id schema r q → Step id schema q p → Steps id schema r p

-- At most one booking is confirmed, and then the unit is gone.
record OneWinner (id : ℕ) (schema : String) (r : Race) : Type 0 where
  valid : UnitsValid r.db
  won : (r.confirmed ≡ []) ⊎ ((length r.confirmed ≡ 1) × Gone id schema r.db)

module _ (id : ℕ) (schema : String) where
  keep-OneWinner :
      (r : Race) (s : Db) (waiting : List ℕ)
      → UnitsGrow r.db s
      → UnitsValid s
      → OneWinner id schema r
      → OneWinner id schema (record r { db = s; waiting = waiting })
  keep-OneWinner r s waiting g v w = record {
    valid = v;
    won = elim w.won [
      | inl empty ↦ inl empty
      | inr (single, gone) ↦ inr (
        single,
        TableGrows-OptionTaken id (r.db.units schema) (s.units schema) (g.at schema) gone,
      )
    ];
  }

  check-UnitsGrow : (s : Db) → UnitsGrow s (Service.check_available id schema s).1
  check-UnitsGrow =
      (check_available-Respects UnitsGrow-preorder schema (growing_writes schema) id).at

  check-UnitsValid : (s : Db) → UnitsValid s → UnitsValid (Service.check_available id schema s).1
  check-UnitsValid =
      (check_available-Respects KeepsValid-preorder schema (valid_writes schema) id).at

  book-UnitsGrow : (user_id : ℕ) (s : Db) → UnitsGrow s (Repository.book_unit id user_id schema s).1
  book-UnitsGrow user_id =
      (book_unit-Respects UnitsGrow-preorder schema (growing_writes schema) id user_id).at

  book-UnitsValid :
      (user_id : ℕ) (s : Db)
      → UnitsValid s
      → UnitsValid (Repository.book_unit id user_id schema s).1
  book-UnitsValid user_id =
      (book_unit-Respects KeepsValid-preorder schema (valid_writes schema) id user_id).at

  Step-OneWinner : {r q : Race} → Step id schema r q → OneWinner id schema r → OneWinner id schema q
  Step-OneWinner (check r user_id u e) w =
      keep-OneWinner r _ _ (check-UnitsGrow r.db) (check-UnitsValid r.db w.valid) w
  Step-OneWinner (confirm r user_id u m e) w = record {
    valid = book-UnitsValid user_id r.db w.valid;
    won = elim w.won [
      | inl empty ↦
          inr (ap (λ (l : List ℕ). suc (length l)) empty, won-Gone id schema user_id r.db u e)
      | inr (single, gone) ↦ absurd (Gone-lost id schema user_id r.db u w.valid gone e)
    ];
  }
  Step-OneWinner (lose r user_id m n) w =
      keep-OneWinner r _ r.waiting (book-UnitsGrow user_id r.db)
        (book-UnitsValid user_id r.db w.valid) w
  Step-OneWinner (other r s g v) w = keep-OneWinner r s r.waiting g (v w.valid) w

  Steps-OneWinner :
      {r q : Race} → Steps id schema r q → OneWinner id schema r → OneWinner id schema q
  Steps-OneWinner here w = w
  Steps-OneWinner (next steps step) w = Step-OneWinner step (Steps-OneWinner steps w)

-- Whatever the order in which the checks and updates of overlapping bookings of one unit run, with
-- any steps between them that keep the lifecycle and the invariant of the units, and with any
-- statement failing, at most one booking of the unit is confirmed, from a state whose units are
-- valid.
pub Steps-confirmed :
    (id : ℕ) (schema : String) (r q : Race)
    → Steps id schema r q
    → UnitsValid r.db
    → r.confirmed ≡ []
    → length q.confirmed ≤ 1
Steps-confirmed id schema r q steps v start =
    elim (Steps-OneWinner id schema steps (record { valid = v; won = inl start })).won [
      | inl empty ↦ rw empty (omega arith)
      | inr (single, gone) ↦ omega arith
    ]
