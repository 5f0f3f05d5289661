-- ===== src/Stats/Reference.antt =====
-- The statistics as sums over the tables: where the driver answers and every active tenant has its
-- tables, the loop returns what a count over the units of all active tenants gives.
use real_estate_multi_tenant.Prelude.{
  ℕ, zero, suc, ltb, if◌then◌else◌, ◌+◌, ◌≡◌, refl, sym, ap, ◌∙◌, String, Bool, true, false, List,
  [], ◌∷◌, ◌++◌, Option, none, some, length, length-append, filter, arith,
}
use real_estate_multi_tenant.Db.{
  UnitRow, ProjectRow, TenantRow, Table, Db, Result, ok, err, units, projects, tenants, count_where,
}
use real_estate_multi_tenant.Db.Healthy.{Healthy, tick, select-eq}
use real_estate_multi_tenant.Tenants.Repository
use real_estate_multi_tenant.Tenants.Service.{get_tenant_stats}
use real_estate_multi_tenant.Stats.Tally.{
  tally, sold_value, plus_counts, counts-eq, tally-append, unit_stats-eq,
}
use real_estate_multi_tenant.Stats.Controller.{
  Double, Floats, nought, UnitCounts, Totals, no_totals, add_totals, count_projects, analyze_units,
  aggregate, Stats, collect_stats,
}

abbrev pub rows_of : {Row : Type 0} → Option (Table Row) → List Row
rows_of none = []
rows_of (some t) = t.rows

-- The active units and projects of some tenants, in one list.
abbrev pub units_of : (String → Option (Table UnitRow)) → List TenantRow → List UnitRow
units_of f [] = []
units_of f (t ∷ ts) = filter (λ u. u.is_active) (rows_of (f t.schema_name)) ++ units_of f ts

abbrev pub projects_of : (String → Option (Table ProjectRow)) → List TenantRow → List ProjectRow
projects_of f [] = []
projects_of f (t ∷ ts) = filter (λ p. p.is_active) (rows_of (f t.schema_name)) ++ projects_of f ts

-- Each tenant has a table of this kind.
abbrev pub Present : {Row : Type 0} → (String → Option (Table Row)) → List TenantRow → Type 0
Present f [] = Unit
Present {Row} f (t ∷ ts) = ((us : Table Row) × (f t.schema_name ≡ some us)) × Present f ts

-- The revenue: the values of what each tenant sold, added in the order of the registry.
abbrev pub revenue_of :
    Floats → Double → (String → Option (Table UnitRow)) → List TenantRow → Double
revenue_of f sum tables [] = sum
revenue_of f sum tables (t ∷ ts) =
    let sold = sold_value (filter (λ u. u.is_active) (rows_of (tables t.schema_name))) in
    revenue_of f (f.plus sum (f.parse sold)) tables ts

-- The totals with those of some more tenants.
abbrev extended : Floats → Db → List TenantRow → Totals → Totals
extended f s ts t = record {
  projects = t.projects + length (projects_of s.projects ts);
  units = plus_counts t.units (tally (units_of s.units ts));
  revenue = revenue_of f t.revenue s.units ts;
}

totals-eq :
    (t u : Totals) → t.projects ≡ u.projects → t.units ≡ u.units → t.revenue ≡ u.revenue → t ≡ u
totals-eq t u ep eu er = cc

extended-none : (f : Floats) (s : Db) (t : Totals) → t ≡ extended f s [] t
extended-none f s t =
    totals-eq _ _ (omega arith)
      (counts-eq _ _ (omega arith) (omega arith) (omega arith) (omega arith)) refl

plus_counts_assoc :
    (a b c : UnitCounts) → plus_counts (plus_counts a b) c ≡ plus_counts a (plus_counts b c)
plus_counts_assoc a b c = counts-eq _ _ (omega arith) (omega arith) (omega arith) (omega arith)

count_projects-eq :
    (schema : String) (s : Db) (ps : Table ProjectRow)
    → Healthy s
    → s.projects schema ≡ some ps
    → count_projects schema s ≡ (ok (length (filter (λ p. p.is_active) ps.rows)), tick s)
unfolding count_projects count_where
count_projects-eq schema s ps up has =
    rw (select-eq projects schema s ps (up _) has (λ p. p.is_active))

analyze_units-eq :
    (schema : String) (s : Db) (us : Table UnitRow)
    → Healthy s
    → s.units schema ≡ some us
    → analyze_units schema s ≡ (
      ok (record {
        counts = tally (filter (λ u. u.is_active) us.rows);
        revenue = sold_value (filter (λ u. u.is_active) us.rows);
      }),
      tick s,
    )
unfolding analyze_units
analyze_units-eq schema s us up has =
    rw
      (
        select-eq units schema s us (up _) has (λ u. u.is_active),
        unit_stats-eq (filter (λ u. u.is_active) us.rows),
      )
      refl

-- One tenant more.
extended-one :
    (f : Floats) (s : Db) (tenant : TenantRow) (rest : List TenantRow) (t : Totals)
    (us : Table UnitRow) (ps : Table ProjectRow)
    → s.units tenant.schema_name ≡ some us
    → s.projects tenant.schema_name ≡ some ps
    → extended f s rest (
        add_totals f t (length (filter (λ p. p.is_active) ps.rows)) (record {
          counts = tally (filter (λ u. u.is_active) us.rows);
          revenue = sold_value (filter (λ u. u.is_active) us.rows);
        }))
      ≡ extended f s (tenant ∷ rest) t
unfolding add_totals
extended-one f s tenant rest t us ps eu ep =
    let mine = filter (λ u. u.is_active) us.rows in
    rw (eu, ep)
      (totals-eq _ _
        (omega
          (arith, length-append (filter (λ p. p.is_active) ps.rows) (projects_of s.projects rest)))
        (plus_counts_assoc t.units (tally mine) (tally (units_of s.units rest))
          ∙ ap (plus_counts t.units) (sym (tally-append mine (units_of s.units rest))))
        refl)

aggregate-eq :
    (f : Floats) (ts : List TenantRow) (t : Totals) (s : Db)
    → Healthy s
    → Present s.units ts
    → Present s.projects ts
    → (aggregate f ts t s).0 ≡ ok (extended f s ts t)
unfolding aggregate
aggregate-eq f [] t s up hu hp = ap ok (extended-none f s t)
aggregate-eq f (tenant ∷ rest) t s up ((us, eu), hu) ((ps, ep), hp) =
    rw
      (
        count_projects-eq tenant.schema_name s ps up ep,
        analyze_units-eq tenant.schema_name (tick s) us up eu,
      )
      (aggregate-eq f rest _ (tick (tick s)) up hu hp
        ∙ ap ok (extended-one f s tenant rest t us ps eu ep))

abbrev pub active_tenants : Db → List TenantRow
active_tenants s = filter (λ t. t.is_active) s.tenants.rows

-- The numbers of the units of the active tenants and of their projects, and the revenue.
abbrev pub reference : Floats → Db → Totals
reference f s = record {
  projects = length (projects_of s.projects (active_tenants s));
  units = tally (units_of s.units (active_tenants s));
  revenue = revenue_of f nought s.units (active_tenants s);
}

-- The occupancy of so many units, of which so many are taken.
abbrev pub rate : Floats → ℕ → ℕ → String
rate f zero taken = "0%"
rate f (suc n) taken = f.percent taken (suc n)

filter-all : (ts : List TenantRow) → filter (λ t. true) ts ≡ ts
unfolding filter
filter-all [] = refl
filter-all (t ∷ ts) = ap (λ rest. t ∷ rest) (filter-all ts)

count-eq :
    (active_only : Bool) (s : Db)
    → Healthy s
    → Repository.count active_only s
      ≡ (ok (length (filter (Repository.is_listed active_only) s.tenants.rows)), tick s)
unfolding Repository.count count_where
count-eq active_only s up =
    rw (select-eq tenants "public" s s.tenants (up _) refl (Repository.is_listed active_only))

rate-eq :
    (f : Floats) (total taken : ℕ)
    → (if ltb 0 total then f.percent taken total else "0%") ≡ rate f total taken
rate-eq f zero taken = refl
rate-eq f (suc n) taken = let positive : ltb 0 (suc n) ≡ true = ground arith in rw positive refl

from_nothing : (f : Floats) (s : Db) → extended f s (active_tenants s) no_totals ≡ reference f s
from_nothing f s =
    totals-eq _ _ (omega arith)
      (counts-eq _ _ (omega arith) (omega arith) (omega arith) (omega arith)) refl

-- The statistics of a result, if it is one: the sums, the numbers of tenants and of active ones, and
-- the two texts.
abbrev pub totals_of : Result Stats → Option (Totals × ℕ × ℕ × String × String)
totals_of (ok st) =
    some (st.totals, st.tenants.total, st.tenants.active, st.occupancy_rate, st.revenue)
totals_of (err e) = none

module _ (f : Floats) where
  -- Where no statement fails and every active tenant has its units and projects, the statistics are
  -- returned: the numbers of all their active units taken together, by status, and of their active
  -- projects, the revenue of the sold ones, added up tenant by tenant in the order of the registry, the
  -- numbers of tenants and of active ones, the rate of the taken units and the revenue as texts.
  pub collect_stats-eq :
      (s : Db)
      → Healthy s
      → Present s.units (active_tenants s)
      → Present s.projects (active_tenants s)
      → totals_of (collect_stats f s).0
        ≡ some (
          reference f s,
          length s.tenants.rows,
          length (active_tenants s),
          rate f
              (reference f s).units.total
              ((reference f s).units.booked + (reference f s).units.sold),
          f.money (reference f s).revenue,
        )
  unfolding collect_stats get_tenant_stats
  collect_stats-eq s up hu hp =
      let answer : Totals → String → Option (Totals × ℕ × ℕ × String × String) = λ t text.
        some (t, length s.tenants.rows, length (active_tenants s), text, f.money t.revenue) in
      let shown = λ (t : Totals).
        if ltb 0 t.units.total
        then f.percent (t.units.booked + t.units.sold) t.units.total
        else "0%" in
      let run : totals_of (collect_stats f s).0
          ≡ answer (extended f s (active_tenants s) no_totals)
              (shown (extended f s (active_tenants s) no_totals)) =
        rw
          (
            count-eq false s up,
            count-eq true (tick s) up,
            select-eq tenants "public" (tick (tick s)) s.tenants (up _) refl (λ t. t.is_active),
            aggregate-eq f (active_tenants s) no_totals (tick (tick (tick s))) up hu hp,
            filter-all s.tenants.rows,
          )
          refl in
      run
      ∙ (ap (λ (t : Totals). answer t (shown t)) (from_nothing f s)
          ∙ ap (answer (reference f s)) (
              rate-eq f (reference f s).units.total
                ((reference f s).units.booked + (reference f s).units.sold)))
