-- ===== src/Paging.antt =====
-- The paging that every service computes: `parseInt(options.page) || 1` and the clauses
-- LIMIT and OFFSET. The numbers come from the query string unchecked in some routes, so they may be
-- negative, and the database refuses such a clause.
pub mod Laws
mod Tests
use real_estate_multi_tenant.Prelude.{
  ℕ, zero, suc, ◌-◌, ◌*◌, ℤ, pos, negsuc, List, Option, none, some, take, drop, leb, if◌then◌else◌,
}

-- a - b, as an integer.
abbrev pub sub_ℕ : ℕ → ℕ → ℤ
sub_ℕ a b = if leb b a then pos (a - b) else negsuc (b - a - 1)

infixl 70 ◌*ℤ◌
abbrev pub ◌*ℤ◌ : ℤ → ℤ → ℤ
pos a *ℤ pos b = pos (a * b)
pos a *ℤ negsuc b = sub_ℕ 0 (a * suc b)
negsuc a *ℤ pos b = sub_ℕ 0 (suc a * b)
negsuc a *ℤ negsuc b = pos (suc a * suc b)

-- x - 1
abbrev pub pred_ℤ : ℤ → ℤ
pred_ℤ (pos zero) = negsuc zero
pred_ℤ (pos (suc n)) = pos n
pred_ℤ (negsuc n) = negsuc (suc n)

-- `parseInt(x) || d`: not a number and 0 are falsy.
unfoldable pub or_default : Option ℤ → ℤ → ℤ
or_default none d = d
or_default (some (pos zero)) d = d
or_default (some x) d = x

-- `(page - 1) * limit`
unfoldable pub offset_of : ℤ → ℤ → ℤ
offset_of page limit = pred_ℤ page *ℤ limit

module _ {A : Type 0} where
  -- `LIMIT n OFFSET k` on the sorted rows; `none` is an error. A clause for 0 is not written.
  unfoldable pub limit_rows : ℤ → List A → Option (List A)
  limit_rows (pos zero) rows = some rows
  limit_rows (pos (suc n)) rows = some (take (suc n) rows)
  limit_rows (negsuc n) rows = none

  unfoldable pub offset_rows : ℤ → List A → Option (List A)
  offset_rows (pos n) rows = some (drop n rows)
  offset_rows (negsuc n) rows = none

  abbrev chain : Option (List A) → (List A → Option (List A)) → Option (List A)
  chain none f = none
  chain (some a) f = f a

  unfoldable pub page_of : ℤ → ℤ → List A → Option (List A)
  unfolding limit_rows offset_rows
  page_of limit offset rows = chain (offset_rows offset rows) (limit_rows limit)
