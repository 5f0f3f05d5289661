-- ===== src/Stats/Tally.antt =====
-- Units counted by their status, apart from the code, and the aggregate of the database against it.
use real_estate_multi_tenant.Prelude.{
  ℕ, suc, ◌+◌, ◌≡◌, refl, ap, ◌∙◌, List, [], ◌∷◌, ◌++◌, length, arith, if◌then◌else◌,
}
use real_estate_multi_tenant.Db.{UnitStatus, UnitRow}
use real_estate_multi_tenant.Units.Repository.{status_eq}
use real_estate_multi_tenant.Stats.Controller.{UnitCounts, count_status, sum_sold, unit_stats}

abbrev pub none_counted : UnitCounts
none_counted = record { total = 0; available = 0; booked = 0; sold = 0 }

abbrev pub one_more : UnitStatus → UnitCounts → UnitCounts
one_more UnitStatus.available c = record c { total = suc c.total; available = suc c.available }
one_more UnitStatus.booked c = record c { total = suc c.total; booked = suc c.booked }
one_more UnitStatus.sold c = record c { total = suc c.total; sold = suc c.sold }

-- How many units there are, and how many of each status.
abbrev pub tally : List UnitRow → UnitCounts
tally [] = none_counted
tally (u ∷ us) = one_more u.status (tally us)

abbrev pub price_if_sold : UnitStatus → ℕ → ℕ
price_if_sold UnitStatus.available price = 0
price_if_sold UnitStatus.booked price = 0
price_if_sold UnitStatus.sold price = price

-- What the sold units cost in all.
abbrev pub sold_value : List UnitRow → ℕ
sold_value [] = 0
sold_value (u ∷ us) = price_if_sold u.status u.price + sold_value us

abbrev pub plus_counts : UnitCounts → UnitCounts → UnitCounts
plus_counts c d = record {
  total = c.total + d.total;
  available = c.available + d.available;
  booked = c.booked + d.booked;
  sold = c.sold + d.sold;
}

pub counts-eq :
    (c d : UnitCounts)
    → c.total ≡ d.total
    → c.available ≡ d.available
    → c.booked ≡ d.booked
    → c.sold ≡ d.sold
    → c ≡ d
counts-eq c d et ea eb es = cc

one_more-plus :
    (st : UnitStatus) (c d : UnitCounts)
    → one_more st (plus_counts c d) ≡ plus_counts (one_more st c) d
one_more-plus UnitStatus.available c d =
    counts-eq _ _ (omega arith) (omega arith) (omega arith) (omega arith)
one_more-plus UnitStatus.booked c d =
    counts-eq _ _ (omega arith) (omega arith) (omega arith) (omega arith)
one_more-plus UnitStatus.sold c d =
    counts-eq _ _ (omega arith) (omega arith) (omega arith) (omega arith)

pub tally-append : (us vs : List UnitRow) → tally (us ++ vs) ≡ plus_counts (tally us) (tally vs)
tally-append [] vs = counts-eq _ _ (omega arith) (omega arith) (omega arith) (omega arith)
tally-append (u ∷ us) vs =
    ap (one_more u.status) (tally-append us vs) ∙ one_more-plus u.status (tally us) (tally vs)

counted :
    (st : UnitStatus) (n a b c : ℕ)
    → record {
      total = suc n;
      available = (if status_eq st UnitStatus.available then 1 else 0) + a;
      booked = (if status_eq st UnitStatus.booked then 1 else 0) + b;
      sold = (if status_eq st UnitStatus.sold then 1 else 0) + c;
    }
      ≡ one_more st (record { total = n; available = a; booked = b; sold = c })
counted UnitStatus.available n a b c =
    counts-eq _ _ (omega arith) (omega arith) (omega arith) (omega arith)
counted UnitStatus.booked n a b c =
    counts-eq _ _ (omega arith) (omega arith) (omega arith) (omega arith)
counted UnitStatus.sold n a b c =
    counts-eq _ _ (omega arith) (omega arith) (omega arith) (omega arith)

tally-eq :
    (us : List UnitRow)
    → record {
      total = length us;
      available = count_status UnitStatus.available us;
      booked = count_status UnitStatus.booked us;
      sold = count_status UnitStatus.sold us;
    }
      ≡ tally us
unfolding count_status
tally-eq [] = refl
tally-eq (u ∷ us) = counted u.status _ _ _ _ ∙ ap (one_more u.status) (tally-eq us)

price-eq :
    (st : UnitStatus) (price : ℕ)
    → (if status_eq st UnitStatus.sold then price else 0) ≡ price_if_sold st price
price-eq UnitStatus.available price = refl
price-eq UnitStatus.booked price = refl
price-eq UnitStatus.sold price = refl

sold_value-eq : (us : List UnitRow) → sum_sold us ≡ sold_value us
unfolding sum_sold
sold_value-eq [] = refl
sold_value-eq (u ∷ us) = rw (price-eq u.status u.price, sold_value-eq us) refl

pub unit_stats-eq :
    (us : List UnitRow) → unit_stats us ≡ record { counts = tally us; revenue = sold_value us }
unfolding unit_stats
unit_stats-eq us = rw (tally-eq us, sold_value-eq us) refl
