-- ===== src/Stats/Controller.antt =====
-- src/controllers/superAdminStats.controller.js. The database sums prices exactly, in hundredths; the
-- controller adds the sums of the tenants as floating-point numbers, whose operations are parameters.
use real_estate_multi_tenant.Prelude.{
  ℕ, ◌+◌, String, List, [], ◌∷◌, none, some, length, ltb, if◌then◌else◌,
}
use real_estate_multi_tenant.Db.{
  TenantRow, UnitRow, UnitStatus, Db, M, pure, ◌>>=◌, tenants, projects, units, select_where,
  count_where,
}
use real_estate_multi_tenant.Http.{Handled, send_success, send_error, respond}
use real_estate_multi_tenant.Access.Request.{Verified, Request}
use real_estate_multi_tenant.Access.Pipeline.{Handler, public_scoped, plain}
use real_estate_multi_tenant.Units.Repository.{status_eq}
use real_estate_multi_tenant.Tenants.Service.{TenantStats, get_tenant_stats}

-- A floating-point number, as its 64 bits.
pub record Double : Type 0 where
  pub bits : ℕ

-- What the engine does with such numbers: `parseFloat` of an amount in hundredths, `+`, and the two
-- ways in which `toFixed(2)` is used.
pub record Floats : Type 0 where
  pub parse : ℕ → Double
  pub plus : Double → Double → Double
  pub percent : ℕ → ℕ → String
  pub money : Double → String

abbrev pub nought : Double
nought = record { bits = 0 }

pub record UnitCounts : Type 0 where
  pub total : ℕ
  pub available : ℕ
  pub booked : ℕ
  pub sold : ℕ

-- One row of the aggregate over a schema's units.
pub record UnitStats : Type 0 where
  pub counts : UnitCounts
  pub revenue : ℕ

-- SUM(CASE WHEN status = … THEN 1 ELSE 0 END)
unfoldable pub count_status : UnitStatus → List UnitRow → ℕ
count_status st [] = 0
count_status st (u ∷ us) = (if status_eq u.status st then 1 else 0) + count_status st us

-- SUM(CASE WHEN status = 'Sold' THEN price ELSE 0 END)
unfoldable pub sum_sold : List UnitRow → ℕ
sum_sold [] = 0
sum_sold (u ∷ us) = (if status_eq u.status UnitStatus.sold then u.price else 0) + sum_sold us

unfoldable pub unit_stats : List UnitRow → UnitStats
unfolding count_status sum_sold
unit_stats us = record {
  counts = record {
    total = length us;
    available = count_status UnitStatus.available us;
    booked = count_status UnitStatus.booked us;
    sold = count_status UnitStatus.sold us;
  };
  revenue = sum_sold us;
}

-- The sums over the tenants.
pub record Totals : Type 0 where
  pub projects : ℕ
  pub units : UnitCounts
  pub revenue : Double

abbrev pub no_totals : Totals
no_totals = record {
  projects = 0;
  units = record { total = 0; available = 0; booked = 0; sold = 0 };
  revenue = nought;
}

unfoldable pub add_totals : Floats → Totals → ℕ → UnitStats → Totals
add_totals f t n u = record {
  projects = t.projects + n;
  units = record {
    total = t.units.total + u.counts.total;
    available = t.units.available + u.counts.available;
    booked = t.units.booked + u.counts.booked;
    sold = t.units.sold + u.counts.sold;
  };
  revenue = f.plus t.revenue (f.parse u.revenue);
}

-- The body of the loop: the two statements on one schema.
unfoldable pub count_projects : String → M ℕ
count_projects schema = count_where projects schema (λ p. p.is_active)

unfoldable pub analyze_units : String → M UnitStats
analyze_units schema = do
  rows ← select_where units schema (λ u. u.is_active)
  pure (unit_stats rows)

unfoldable pub aggregate : Floats → List TenantRow → Totals → M Totals
aggregate f [] t = pure t
aggregate f (tenant ∷ rest) t = do
  n ← count_projects tenant.schema_name
  u ← analyze_units tenant.schema_name
  aggregate f rest (add_totals f t n u)

pub record Stats : Type 0 where
  pub tenants : TenantStats
  pub totals : Totals
  pub occupancy_rate : String
  pub revenue : String
  pub currency : String

module _ (f : Floats) where
  unfoldable pub collect_stats : M Stats
  collect_stats = do
    tenant_stats ← get_tenant_stats
    active ← select_where tenants "public" (λ t. t.is_active)
    totals ← aggregate f active no_totals
    let total = totals.units.total
    pure (record {
      tenants = tenant_stats;
      totals = totals;
      occupancy_rate =
          if ltb 0 total then f.percent (totals.units.booked + totals.units.sold) total else "0%";
      revenue = f.money totals.revenue;
      currency = "USD";
    })

  unfoldable pub get_stats : Db → Handled Stats × Db
  get_stats =
      respond
        (do
          stats ← collect_stats
          pure (send_success (some stats) "Statistics retrieved successfully", none))
        (λ e. send_error e 500)

  unfoldable pub stats_handle : (String → Verified) → Request → Handler Stats
  stats_handle verify req = public_scoped verify req (λ user. plain get_stats)
