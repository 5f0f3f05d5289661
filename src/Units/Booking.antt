-- ===== src/Units/Booking.antt =====
-- What a booking does where no statement fails.
use mathlib.Core.Path.{subst}
use real_estate_multi_tenant.Prelude.{
  ℕ, suc, ◌≡◌, ◌≢◌, refl, ap, ◌∙◌, String, true, false, List, [], ◌∷◌, Option, none, some, head?,
  map, filter, inl, inr, Option-cases, ◌⊎◌, eq_refl, arith,
}
use real_estate_multi_tenant.Errors.{not_found, bad_request}
use real_estate_multi_tenant.Db.{
  UnitStatus, available, booked, sold, UnitRow, Table, Db, Result, ok, err, update, units, set_rows,
}
use real_estate_multi_tenant.Db.Healthy.{tick, Healthy, select-eq, update-eq}
use real_estate_multi_tenant.Units.Dto.{unit_response}
use real_estate_multi_tenant.Units.Repository
use real_estate_multi_tenant.Units.Repository.{
  status_eq, has_id, is_bookable, set_booked, unchecked,
}
use real_estate_multi_tenant.Units.Abstract.{
  unit_with, booking_of, first-unit_with, set_rows-booked,
}
use real_estate_multi_tenant.Units.Service
use real_estate_multi_tenant.Units.Service.{cannot_be_booked, booking_lost}

status-cases : (status : UnitStatus) → (status ≡ available) ⊎ (status ≢ available)
status-cases available = inl refl
status-cases booked = inr (ground arith)
status-cases sold = inr (ground arith)

-- The unit that `findById` gives.
abbrev pub first_with : ℕ → List UnitRow → Option UnitRow
first_with id rows = head? (filter (has_id id) rows)

-- The first unit with the id is the first one to be booked, if it is available.
first_bookable :
    (id : ℕ) (u : UnitRow) (rows : List UnitRow)
    → first_with id rows ≡ some u
    → u.status ≡ available
    → head? (filter (is_bookable id) rows) ≡ some u
unfolding is_bookable filter
first_bookable id u [] h a = cc
first_bookable id u (x ∷ xs) h a = ground (arith, first_bookable id u xs)

head?-map {ℓ κ} :
    {A : Type ℓ} {B : Type κ} (f : A → B) (xs : List A) (a : A)
    → head? xs ≡ some a
    → head? (map f xs) ≡ some (f a)
head?-map f [] a h = cc
head?-map f (x ∷ xs) a h = ground arith

module _ (id : ℕ) (schema : String) (s : Db) (t : Table UnitRow) (up : Healthy s)
    (has : s.units schema ≡ some t) where
  pub find_by_id-eq : Repository.find_by_id id schema s ≡ (ok (first_with id t.rows), tick s)
  unfolding Repository.find_by_id
  find_by_id-eq = rw (select-eq units schema s t (up _) has (has_id id))

  book_unit-none :
      (user_id : ℕ)
      → first_with id t.rows ≡ none
      → Service.book_unit id user_id schema s ≡ (err (not_found "Unit not found"), tick s)
  unfolding Service.book_unit
  book_unit-none user_id h = rw (find_by_id-eq, h)

  book_unit-taken :
      (user_id : ℕ) (u : UnitRow)
      → first_with id t.rows ≡ some u
      → u.status ≢ available
      → Service.book_unit id user_id schema s
        ≡ (err (bad_request (cannot_be_booked u.status)), tick s)
  unfolding Service.book_unit
  book_unit-taken user_id u h n =
      let no : status_eq u.status available ≡ false = ground arith in rw (find_by_id-eq, h, no)

  repository-book_unit-eq :
      (user_id : ℕ) (u : UnitRow)
      → first_with id t.rows ≡ some u
      → u.status ≡ available
      → Repository.book_unit id user_id schema (tick s) ≡ (
        ok (some (set_booked user_id (s.time (suc (suc s.statements))) u)),
        units.write schema
            (record t {
              rows =
                  set_rows
                    (is_bookable id)
                    (set_booked user_id (s.time (suc (suc s.statements))))
                    t.rows;
            })
            (tick (tick s)),
      )
  unfolding Repository.book_unit
  repository-book_unit-eq user_id u h a = rw (
    update-eq units schema (tick s) t (up _) has (is_bookable id) unchecked (set_booked user_id)
        refl,
    head?-map (set_booked user_id (s.time (suc (suc s.statements)))) _ u
        (first_bookable id u t.rows h a),
  )

  book_unit-available :
      (user_id : ℕ) (u : UnitRow)
      → first_with id t.rows ≡ some u
      → u.status ≡ available
      → Service.book_unit id user_id schema s ≡ (
        ok (set_booked user_id (s.time (suc (suc s.statements))) u),
        units.write schema
            (record t {
              rows =
                  set_rows
                    (is_bookable id)
                    (set_booked user_id (s.time (suc (suc s.statements))))
                    t.rows;
            })
            (tick (tick s)),
      )
  unfolding Service.book_unit unit_response
  book_unit-available user_id u h a =
      let free : status_eq u.status available ≡ true = ground arith in
      rw (find_by_id-eq, h, free, repository-book_unit-eq user_id u h a)

pub update_self {ℓ} :
    {A : Type ℓ} (f : String → Option A) (name : String) (a : A) → update f name a name ≡ some a
unfolding update
update_self f name a = rw (eq_refl name)

module _ (id user_id now : ℕ) (schema : String) (t : Table UnitRow) where
  -- An answer with a state, against the abstract booking.
  abbrev Refines : Option UnitRow → Result UnitRow × Db → Type 0
  Refines found (r, s') =
      (r ≡ (booking_of id user_id now found t.rows).0)
      × (s'.units schema ≡ some (record t { rows = (booking_of id user_id now found t.rows).1 }))

module _ (id user_id : ℕ) (schema : String) (s : Db) (t : Table UnitRow) (up : Healthy s)
    (has : s.units schema ≡ some t) where
  -- The outcome for the unit that was found, by its status.
  booking-Refines :
      (u : UnitRow) (st : UnitStatus)
      → first_with id t.rows ≡ some u
      → u.status ≡ st
      → Refines id user_id
          (s.time (suc (suc s.statements)))
          schema
          t
          (some u)
          (Service.book_unit id user_id schema s)
  booking-Refines u available e is =
      rw (book_unit-available id schema s t up has user_id u e is, is)
        (
          refl,
          update_self s.units schema _
              ∙ ap (λ rows. some (record t { rows = rows })) (set_rows-booked id user_id _ t.rows),
        )
  booking-Refines u booked e is =
      rw (book_unit-taken id schema s t up has user_id u e (λ free. ground (arith, is, free)), is)
        (refl, has)
  booking-Refines u sold e is =
      rw (book_unit-taken id schema s t up has user_id u e (λ free. ground (arith, is, free)), is)
        (refl, has)

-- Where the driver answers and the table exists, a booking is the abstract one on the rows: not
-- found, refused with the status, or the first unit with the id booked for the user at the time of
-- the update, and exactly the available units with that id changed.
pub book_unit-refines :
    (id user_id : ℕ) (schema : String) (s : Db) (t : Table UnitRow)
    → Healthy s
    → s.units schema ≡ some t
    → ((Service.book_unit id user_id schema s).0
        ≡ (booking_of id user_id (s.time (suc (suc s.statements))) (unit_with id t.rows) t.rows).0)
      × ((Service.book_unit id user_id schema s).1.units schema
          ≡ some (record t {
            rows =
                (booking_of id user_id
                  (s.time (suc (suc s.statements)))
                  (unit_with id t.rows)
                  t.rows).1;
          }))
book_unit-refines id user_id schema s t up has =
    subst
      (λ found.
        Refines id user_id (s.time (suc (suc s.statements))) schema t found
          (Service.book_unit id user_id schema s))
      (first-unit_with id t.rows)
      (elim (Option-cases (first_with id t.rows)) [
        | inl missing ↦
            rw (book_unit-none id schema s t up has user_id missing, missing) (refl, has)
        | inr (u, e) ↦ rw e (booking-Refines id user_id schema s t up has u u.status e refl)
      ])
