-- ===== src/Paging/Tests.antt =====
-- The theorem on the pages at a concrete listing.
use real_estate_multi_tenant.Prelude.{ℕ, List, ◌≡◌, [], ◌∷◌, take}
use real_estate_multi_tenant.Paging.Laws.{first_pages, first_pages-take}

abbrev three : List ℕ
three = 7 ∷ 8 ∷ 9 ∷ []

first_pages-take_example : first_pages 2 2 three ≡ take 4 three
first_pages-take_example = first_pages-take 1 2 three
