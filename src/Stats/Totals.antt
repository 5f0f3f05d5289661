-- ===== src/Stats/Totals.antt =====
-- What the statistics add up.
use real_estate_multi_tenant.Prelude.{
  ℕ, suc, ◌+◌, ◌≡◌, refl, String, List, [], ◌∷◌, length, arith, if◌then◌else◌,
}
use real_estate_multi_tenant.Db.{UnitStatus, UnitRow, TenantRow, pure, units, tenants, select_where}
use real_estate_multi_tenant.Db.Returns.{Any, Returns, Returns-Any, Returns-pure, Returns-bind}
use real_estate_multi_tenant.Units.Repository.{status_eq}
use real_estate_multi_tenant.Tenants.Service.{get_tenant_stats}
use real_estate_multi_tenant.Stats.Controller.{
  Floats, UnitCounts, UnitStats, count_status, unit_stats, Totals, no_totals, add_totals,
  count_projects, analyze_units, aggregate, Stats, collect_stats,
}

-- Every unit is counted under exactly one status.
abbrev pub Balanced : UnitCounts → Type 0
Balanced u = u.available + (u.booked + u.sold) ≡ u.total

one_more :
    (st : UnitStatus) (a b c n : ℕ)
    → a + (b + c) ≡ n
    → ((if status_eq st UnitStatus.available then 1 else 0) + a)
        + (((if status_eq st UnitStatus.booked then 1 else 0) + b)
            + ((if status_eq st UnitStatus.sold then 1 else 0) + c))
      ≡ suc n
one_more UnitStatus.available a b c n e = omega (arith, e)
one_more UnitStatus.booked a b c n e = omega (arith, e)
one_more UnitStatus.sold a b c n e = omega (arith, e)

count-status :
    (us : List UnitRow)
    → count_status UnitStatus.available us
        + (count_status UnitStatus.booked us + count_status UnitStatus.sold us)
      ≡ length us
unfolding count_status
count-status [] = refl
count-status (u ∷ us) = one_more u.status _ _ _ _ (count-status us)

Balanced-add :
    (f : Floats) (t : Totals) (n : ℕ) (u : UnitStats)
    → Balanced t.units
    → Balanced u.counts
    → Balanced (add_totals f t n u).units
unfolding add_totals
Balanced-add f t n u h k = omega (arith, h, k)

analyze-Balanced :
    (schema : String) → Returns (λ (u : UnitStats). Balanced u.counts) (analyze_units schema)
unfolding analyze_units unit_stats
analyze-Balanced schema =
    Returns-bind Any (select_where units schema (λ u. u.is_active)) (λ rows. pure (unit_stats rows))
      (Returns-Any _) (λ rows _. Returns-pure (unit_stats rows) (count-status rows))

aggregate-Balanced :
    (f : Floats) (ts : List TenantRow) (t : Totals)
    → Balanced t.units
    → Returns (λ (u : Totals). Balanced u.units) (aggregate f ts t)
unfolding aggregate
aggregate-Balanced f [] t h = Returns-pure t h
aggregate-Balanced f (tenant ∷ rest) t h =
    Returns-bind Any (count_projects tenant.schema_name) _ (Returns-Any _) λ n _.
      Returns-bind (λ (u : UnitStats). Balanced u.counts) (analyze_units tenant.schema_name) _
        (analyze-Balanced tenant.schema_name)
        λ u k. aggregate-Balanced f rest (add_totals f t n u) (Balanced-add f t n u h k)

module _ (f : Floats) where
  -- Whatever the database holds and whichever statements fail, if the statistics are returned, the
  -- available, the booked and the sold units that they report add up to the total, over all tenants,
  -- so at most the total is booked or sold.
  pub collect_stats-Balanced : Returns (λ (st : Stats). Balanced st.totals.units) (collect_stats f)
  unfolding collect_stats
  collect_stats-Balanced = Returns-bind Any get_tenant_stats _ (Returns-Any _) λ tenant_stats _.
      Returns-bind Any (select_where tenants "public" (λ t. t.is_active)) _ (Returns-Any _)
        λ active _.
          Returns-bind (λ (t : Totals). Balanced t.units) (aggregate f active no_totals) _
            (aggregate-Balanced f active no_totals refl) λ totals h. Returns-pure _ h
