-- ===== src/Units/Filter.antt =====
-- The test of the WHERE clause against what a filter asks of a unit.
use real_estate_multi_tenant.Prelude.{
  ℕ, zero, suc, ◌≡◌, ◌≤◌, ◌↔◌, refl, ℤ, pos, Bool, true, false, Option, none, some, ◌==◌, leb,
  arith, if◌then◌else◌,
}
use real_estate_multi_tenant.Db.{UnitStatus, available, booked, sold, UnitRow}
use real_estate_multi_tenant.Units.Dto.{CreateUnitBody, create_unit_dto, int_or_null, nat_or_null}
use real_estate_multi_tenant.Units.Repository.{
  status_eq, UnitFilter, condition, column_is, matches, new_row,
}
use real_estate_multi_tenant.Units.Abstract.{
  Given, GivenTrue, Meets, positive, off_ground, requested,
}

status_eq_iff : (a b : UnitStatus) → (status_eq a b ≡ true) ↔ (a ≡ b)
status_eq_iff available available = ((λ e. refl), (λ e. refl))
status_eq_iff available booked = ground arith
status_eq_iff available sold = ground arith
status_eq_iff booked available = ground arith
status_eq_iff booked booked = ((λ e. refl), (λ e. refl))
status_eq_iff booked sold = ground arith
status_eq_iff sold available = ground arith
status_eq_iff sold booked = ground arith
status_eq_iff sold sold = ((λ e. refl), (λ e. refl))

Given_iff :
    {A : Type 0} (o : Option A) (p : A → Bool) (P : A → Type 0)
    → ((a : A) → (p a ≡ true) ↔ P a)
    → (condition o p ≡ true) ↔ Given o P
Given_iff none p P h = ((λ e. tt), (λ e. refl))
Given_iff (some a) p P h = h a

GivenTrue_iff : (on b : Bool) → ((if on then b else true) ≡ true) ↔ GivenTrue on (b ≡ true)
GivenTrue_iff false b = ((λ e. tt), (λ e. refl))
GivenTrue_iff true b = ((λ e. e), (λ e. e))

column_iff : (o : Option ℕ) (n : ℕ) → (column_is o n ≡ true) ↔ (o ≡ some n)
column_iff none n = ground arith
column_iff (some m) n = ground arith

pub matches_iff : (o : UnitFilter) (u : UnitRow) → (matches o u ≡ true) ↔ Meets o u
unfolding matches
matches_iff o u =
    let active = GivenTrue_iff o.active_only u.is_active in
    let project =
      Given_iff o.project_id (λ id. u.project_id == id) (λ id. u.project_id ≡ id)
        (λ id. ground arith) in
    let status =
      Given_iff o.status (λ st. status_eq u.status st) (λ st. u.status ≡ st)
        (status_eq_iff u.status) in
    let low = Given_iff o.min_price (λ n. leb n u.price) (λ n. n ≤ u.price) (λ n. ground arith) in
    let high = Given_iff o.max_price (λ n. leb u.price n) (λ n. u.price ≤ n) (λ n. ground arith) in
    let bedrooms =
      Given_iff o.bedrooms (λ n. column_is u.bedrooms n) (λ n. u.bedrooms ≡ some n)
        (column_iff u.bedrooms) in
    (
      (λ e. record {
        active = active.0 (ground (arith, e));
        project = project.0 (ground (arith, e));
        status = status.0 (ground (arith, e));
        low = low.0 (ground (arith, e));
        high = high.0 (ground (arith, e));
        bedrooms = bedrooms.0 (ground (arith, e));
      }),
      (λ m.
          rw
            (
              active.1 m.active,
              project.1 m.project,
              status.1 m.status,
              low.1 m.low,
              high.1 m.high,
              bedrooms.1 m.bedrooms,
            )
            refl),
    )

floor-eq : (x : Option ℤ) → int_or_null x ≡ off_ground x
unfolding int_or_null
floor-eq none = refl
floor-eq (some (pos zero)) = refl
floor-eq (some (pos (suc n))) = refl
floor-eq (some (ℤ.negsuc n)) = refl

rooms-eq : (x : Option ℕ) → nat_or_null x ≡ positive x
unfolding nat_or_null
rooms-eq none = refl
rooms-eq (some zero) = refl
rooms-eq (some (suc n)) = refl

pub requested-eq :
    (body : CreateUnitBody) (id now : ℕ)
    → new_row (create_unit_dto body) id now ≡ requested body id now
unfolding create_unit_dto
requested-eq body id now =
    rw (floor-eq body.floor, rooms-eq body.bedrooms, rooms-eq body.bathrooms) refl
