-- ===== src/Units/Taken.antt =====
-- A unit that is booked or sold stays so, and the update of a booking takes no row of it.
use mathlib.Core.Path.{subst}
use real_estate_multi_tenant.Prelude.{
  ℕ, suc, ◌≤◌, ◌≡◌, ◌≢◌, refl, sym, ◌∙◌, ◌⊎◌, inl, inr, String, List, [], ◌∷◌, Option, none, some,
  head?, map, filter, Bool-cases, Option-cases, All, arith,
}
use real_estate_multi_tenant.Db.{
  UnitRow, Table, Db, Result, ok, err, units, update_where, set_rows, update_where,
}
use real_estate_multi_tenant.Errors.{Error, query_failed}
use real_estate_multi_tenant.Db.Healthy.{tick, update-eq}
use real_estate_multi_tenant.Units.Booking.{update_self}
use real_estate_multi_tenant.Units.Repository
use real_estate_multi_tenant.Units.Repository.{
  status_eq, has_id, is_bookable, set_booked, unchecked,
}
use real_estate_multi_tenant.Units.Lifecycle.{stage, Grows, TableGrows}
use real_estate_multi_tenant.Units.Invariant.{Unique, TableValid, UnitsValid}

-- A unit with the id that is no longer available.
abbrev Taken : ℕ → List UnitRow → Type 0
Taken id [] = ⊥
Taken id (u ∷ us) = ((u.id ≡ id) × (1 ≤ stage u.status)) ⊎ Taken id us

Grows-Taken : (id : ℕ) (xs ys : List UnitRow) → Grows xs ys → Taken id xs → Taken id ys
Grows-Taken id (x ∷ xs) (y ∷ ys) (e, h) (inl (same, far)) =
    inl (omega (arith, e.same_id), omega (arith, e.forward))
Grows-Taken id (x ∷ xs) (y ∷ ys) (e, h) (inr later) = inr (Grows-Taken id xs ys h later)
Grows-Taken id (x ∷ xs) [] h k = absurd h
Grows-Taken id [] ys h k = absurd k

-- With distinct ids such a unit leaves nothing to book.
no_other : (id : ℕ) (us : List UnitRow) → All (λ v. id ≢ v.id) us → filter (is_bookable id) us ≡ []
unfolding filter is_bookable
no_other id [] h = refl
no_other id (u ∷ us) (n, h) = ground (arith, no_other id us h)

Taken-ne : (i id : ℕ) (us : List UnitRow) → All (λ v. i ≢ v.id) us → Taken id us → i ≢ id
Taken-ne i id (u ∷ us) (n, h) (inl (same, far)) e = n (e ∙ sym same)
Taken-ne i id (u ∷ us) (n, h) (inr later) e = Taken-ne i id us h later e
Taken-ne i id [] h k e = absurd k

Taken-filter :
    (id : ℕ) (us : List UnitRow) → Unique us → Taken id us → filter (is_bookable id) us ≡ []
unfolding filter is_bookable
Taken-filter id [] h k = absurd k
Taken-filter id (u ∷ us) (n, h) (inl (same, far)) =
    ground (arith, no_other id us (subst (λ i. All (λ v. i ≢ v.id) us) same n))
Taken-filter id (u ∷ us) (n, h) (inr later) =
    ground (arith, Taken-filter id us h later, Taken-ne u.id id us n later)

-- A booking that takes a row leaves the unit taken.
set_rows-Taken :
    (id user_id now : ℕ) (us : List UnitRow)
    → filter (is_bookable id) us ≢ []
    → Taken id (set_rows (is_bookable id) (set_booked user_id now) us)
unfolding filter is_bookable
set_rows-Taken id user_id now [] n = absurd (n refl)
set_rows-Taken id user_id now (u ∷ us) n = elim (Bool-cases (is_bookable id u)) [
  | inl hit ↦ rw hit (inl (ground arith, omega arith))
  | inr miss ↦ rw miss (inr (set_rows-Taken id user_id now us (rw miss at n)))
]

abbrev OptionTaken : ℕ → Option (Table UnitRow) → Type 0
OptionTaken id none = ⊥
OptionTaken id (some t) = Taken id t.rows

head?-map-ne {ℓ κ} :
    {A : Type ℓ} {B : Type κ} (f : A → B) (xs : List A) (b : B)
    → head? (map f xs) ≡ some b
    → xs ≢ []
head?-map-ne f [] b e = cc
head?-map-ne f (x ∷ xs) b e = cc

pub TableGrows-OptionTaken :
    (id : ℕ) (t t' : Option (Table UnitRow))
    → TableGrows t t'
    → OptionTaken id t
    → OptionTaken id t'
TableGrows-OptionTaken id none t' g h = absurd h
TableGrows-OptionTaken id (some t) none g h = absurd g
TableGrows-OptionTaken id (some t) (some t') g h = Grows-Taken id t.rows t'.rows g h

module _ (id : ℕ) (schema : String) where
  -- The unit of the race is no longer available in this state.
  abbrev pub Gone : Db → Type 0
  Gone s = OptionTaken id (s.units schema)

  -- A driver's error, or the update of an existing table.
  abbrev updated : ℕ → Db → Table UnitRow → Result (Option UnitRow) × Db
  updated user_id s t =
      let set = set_booked user_id (s.time (suc s.statements)) in
      (
        ok (head? (map set (filter (is_bookable id) t.rows))),
        units.write schema (record t { rows = set_rows (is_bookable id) set t.rows }) (tick s),
      )

  abbrev Failed : Result (Option UnitRow) × Db → Type 0
  Failed (r, s') = (e : Error) × (r ≡ err e)

  book_unit-cases :
      (user_id : ℕ) (s : Db)
      → Failed (Repository.book_unit id user_id schema s)
        ⊎ ((t : Table UnitRow) × (s.units schema ≡ some t)
            × (Repository.book_unit id user_id schema s ≡ updated user_id s t))
  unfolding Repository.book_unit
  book_unit-cases user_id s = elim (Bool-cases (s.fails s.statements)) [
    | inl down ↦ inl (unfold update_where in rw down (query_failed _, refl))
    | inr up ↦ elim (Option-cases (s.units schema)) [
      | inl missing ↦ inl (unfold update_where in rw (up, missing) (query_failed _, refl))
      | inr (t, has) ↦ inr (
        t,
        has,
        rw (update-eq units schema s t up has (is_bookable id) unchecked (set_booked user_id) refl),
      )
    ]
  ]

  -- An update that returns a row leaves the unit gone.
  pub won-Gone :
      (user_id : ℕ) (s : Db) (u : UnitRow)
      → (Repository.book_unit id user_id schema s).0 ≡ ok (some u)
      → Gone (Repository.book_unit id user_id schema s).1
  won-Gone user_id s u won = elim (book_unit-cases user_id s) [
    | inl (e, failed) ↦ cc
    | inr (t, has, e) ↦
        rw (e, update_self)
          (set_rows-Taken id user_id _ t.rows
            (head?-map-ne (set_booked user_id (s.time (suc s.statements))) _ u (cc)))
  ]

  -- Where the unit is gone no update returns a row.
  pub Gone-lost :
      (user_id : ℕ) (s : Db) (u : UnitRow)
      → UnitsValid s
      → Gone s
      → (Repository.book_unit id user_id schema s).0 ≢ ok (some u)
  Gone-lost user_id s u v g won = elim (book_unit-cases user_id s) [
    | inl (e, failed) ↦ cc
    | inr (t, has, e) ↦
        let valid : TableValid t = rw has at (v.at schema) in
        let taken : Taken id t.rows = rw has at g in
        cc (won, e, Taken-filter id t.rows valid.unique taken)
  ]
