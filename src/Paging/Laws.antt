-- ===== src/Paging/Laws.antt =====
-- The pages of a listing, for a page and a limit of at least 1.
use real_estate_multi_tenant.Prelude.{
  ℕ, zero, suc, ◌+◌, ◌*◌, ◌≡◌, refl, ap, ◌∙◌, pos, List, [], ◌∷◌, ◌++◌, Option, none, some, take,
  drop, arith,
}
use real_estate_multi_tenant.Paging.{offset_of, page_of}

module _ {A : Type 0} where
  take-[] : (n : ℕ) → take {A = A} n [] ≡ []
  take-[] zero = refl
  take-[] (suc n) = refl

  take-cast : {m n : ℕ} (xs : List A) → m ≡ n → take m xs ≡ take n xs
  take-cast xs e = ap (λ k. take k xs) e

  take-drop : (a b : ℕ) (xs : List A) → take a xs ++ take b (drop a xs) ≡ take (a + b) xs
  take-drop zero b xs = take-cast xs (omega arith)
  take-drop (suc a) b [] = rw (take-[] b, take-[] (suc a + b))
  take-drop (suc a) b (x ∷ xs) =
      ap (λ ys. x ∷ ys) (take-drop a b xs) ∙ take-cast {m = suc (a + b)} (x ∷ xs) (omega arith)

  -- A page by its number, both counted from 0.
  pub page-eq :
      (m k : ℕ) (rows : List A)
      → page_of (pos (suc m)) (offset_of (pos (suc k)) (pos (suc m))) rows
        ≡ some (take (suc m) (drop (k * suc m) rows))
  unfolding page_of offset_of
  page-eq m k rows = refl

  abbrev or_empty : Option (List A) → List A
  or_empty none = []
  or_empty (some rows) = rows

  -- The first pages, one after the other.
  abbrev pub first_pages : ℕ → ℕ → List A → List A
  first_pages limit zero rows = []
  first_pages limit (suc n) rows =
      first_pages limit n rows
      ++ or_empty (page_of (pos limit) (offset_of (pos (suc n)) (pos limit)) rows)

  -- The first n pages, one after the other, are the first n * limit rows: no row of the listing is
  -- skipped and none comes twice.
  pub first_pages-take :
      (m n : ℕ) (rows : List A) → first_pages (suc m) n rows ≡ take (n * suc m) rows
  first_pages-take m zero rows = take-cast {m = 0} rows (omega arith)
  first_pages-take m (suc n) rows =
      rw (page-eq m n rows, first_pages-take m n rows, take-drop (n * suc m) (suc m) rows)
        (take-cast rows (omega arith))
