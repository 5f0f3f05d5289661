-- ===== src/Units/Invariant.antt =====
-- The invariant of the units of every schema: ids are distinct and below the sequence, and the
-- columns of a booking and a sale are set exactly in the states that call for them.
use mathlib.Core.Path.{subst}
use real_estate_multi_tenant.Prelude.{
  ℕ, suc, ◌<◌, ◌≡◌, ◌≢◌, refl, sym, ◌∙◌, String, Bool, true, false, List, [], ◌∷◌, ◌++◌, Option,
  none, some, is_some, inl, inr, Bool-cases, arith, All, All-append, if◌then◌else◌,
}
use real_estate_multi_tenant.Db.{UnitStatus, available, booked, sold, UnitRow, Table, Db, set_rows}
use real_estate_multi_tenant.Units.Dto.{UpdateUnitDto}
use real_estate_multi_tenant.Units.Repository.{
  set_fields, is_bookable, set_booked, is_sellable, set_sold, set_inactive,
}

-- What the columns say in each state.
abbrev pub Fits : UnitStatus → UnitRow → Type 0
Fits available u = (u.booked_by ≡ none) × (u.booked_at ≡ none) × (u.sold_at ≡ none)
Fits booked u = (is_some u.booked_by ≡ true) × (is_some u.booked_at ≡ true) × (u.sold_at ≡ none)
Fits sold u = (is_some u.booked_by ≡ is_some u.booked_at) × (is_some u.sold_at ≡ true)

abbrev pub RowValid : ℕ → UnitRow → Type 0
RowValid next u = (u.id < next) × Fits u.status u

-- No two rows have the same id.
abbrev pub Unique : List UnitRow → Type 0
Unique [] = Unit
Unique (u ∷ us) = All (λ v. u.id ≢ v.id) us × Unique us

pub record TableValid (t : Table UnitRow) : Type 0 where
  pub rows : All (RowValid t.next) t.rows
  pub unique : Unique t.rows

abbrev pub OptionValid : Option (Table UnitRow) → Type 0
OptionValid none = Unit
OptionValid (some t) = TableValid t

pub record UnitsValid (s : Db) : Type 0 where
  pub at : (name : String) → OptionValid (s.units name)

-- A change that keeps the ids and the rule of a row.
module _ (p : UnitRow → Bool) (f : UnitRow → UnitRow)
    (same_id : (u : UnitRow) → (f u).id ≡ u.id) where
  set-id : (u : UnitRow) (b : Bool) → (if b then f u else u).id ≡ u.id
  set-id u true = same_id u
  set-id u false = refl

  set_rows-ne :
      (id : ℕ) (xs : List UnitRow)
      → All (λ v. id ≢ v.id) xs
      → All (λ v. id ≢ v.id) (set_rows p f xs)
  set_rows-ne id [] h = tt
  set_rows-ne id (x ∷ xs) (n, h) = ((λ e. n (e ∙ set-id x (p x))), set_rows-ne id xs h)

  pub set_rows-Unique : (xs : List UnitRow) → Unique xs → Unique (set_rows p f xs)
  set_rows-Unique [] h = tt
  set_rows-Unique (x ∷ xs) (n, h) = (
    subst (λ i. All (λ v. i ≢ v.id) (set_rows p f xs)) (sym (set-id x (p x)))
        (set_rows-ne x.id xs n),
    set_rows-Unique xs h,
  )

module _ (next : ℕ) (p : UnitRow → Bool) (f : UnitRow → UnitRow) where
  pub set_rows-RowValid :
      ((u : UnitRow) → p u ≡ true → RowValid next u → RowValid next (f u))
      → (xs : List UnitRow) → All (RowValid next) xs
      → All (RowValid next) (set_rows p f xs)
  set_rows-RowValid keep [] h = tt
  set_rows-RowValid keep (x ∷ xs) (v, h) = elim (Bool-cases (p x)) [
    | inl e ↦ rw e (keep x e v, set_rows-RowValid keep xs h)
    | inr e ↦ rw e (v, set_rows-RowValid keep xs h)
  ]

-- The rule reads three columns.
Fits-same :
    (status : UnitStatus) (u v : UnitRow)
    → v.booked_by ≡ u.booked_by
    → v.booked_at ≡ u.booked_at
    → v.sold_at ≡ u.sold_at
    → Fits status u
    → Fits status v
Fits-same available u v e f g h = ground arith
Fits-same booked u v e f g h = ground arith
Fits-same sold u v e f g h = ground arith

pub set_fields-RowValid :
    (next : ℕ) (dto : UpdateUnitDto) (now : ℕ) (u : UnitRow)
    → RowValid next u
    → RowValid next (set_fields dto now u)
set_fields-RowValid next dto now u (below, fits) =
    (below, Fits-same u.status u _ refl refl refl fits)

pub set_inactive-RowValid :
    (next now : ℕ) (u : UnitRow) → RowValid next u → RowValid next (set_inactive now u)
set_inactive-RowValid next now u (below, fits) = (below, Fits-same u.status u _ refl refl refl fits)

pub set_booked-RowValid :
    (id user_id next now : ℕ) (u : UnitRow)
    → is_bookable id u ≡ true
    → RowValid next u
    → RowValid next (set_booked user_id now u)
unfolding is_bookable
set_booked-RowValid id user_id next now u h (below, fits) = (below, ground arith)

pub set_sold-RowValid :
    (id next now : ℕ) (u : UnitRow)
    → is_sellable id u ≡ true
    → RowValid next u
    → RowValid next (set_sold now u)
unfolding is_sellable
set_sold-RowValid id next now u h (below, fits) = (below, ground arith)

pub All-suc : (next : ℕ) (xs : List UnitRow) → All (RowValid next) xs → All (RowValid (suc next)) xs
All-suc next [] h = tt
All-suc next (x ∷ xs) ((below, fits), h) = ((omega arith, fits), All-suc next xs h)

-- A row with the next id is new.
ne-append :
    (id : ℕ) (xs : List UnitRow) (y : UnitRow)
    → id ≢ y.id
    → All (λ v. id ≢ v.id) xs
    → All (λ v. id ≢ v.id) (xs ++ y ∷ [])
ne-append id xs y n h = All-append (λ v. id ≢ v.id) xs (y ∷ []) h (n, tt)

pub Unique-append :
    (next : ℕ) (xs : List UnitRow) (y : UnitRow)
    → y.id ≡ next
    → All (RowValid next) xs
    → Unique xs
    → Unique (xs ++ y ∷ [])
Unique-append next [] y e v h = (tt, tt)
Unique-append next (x ∷ xs) y e ((below, fits), v) (n, h) =
    (ne-append x.id xs y (λ same. omega arith) n, Unique-append next xs y e v h)
