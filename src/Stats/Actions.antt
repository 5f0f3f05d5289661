-- ===== src/Stats/Actions.antt =====
-- The statistics write nothing: they keep to every preorder on states.
use real_estate_multi_tenant.Prelude.{String, List, [], ◌∷◌}
use real_estate_multi_tenant.Db.{TenantRow, Db}
use real_estate_multi_tenant.Db.Respects.{
  Preorder, Respects, Respects-bind, Respects-pure, respects_rules,
}
use real_estate_multi_tenant.Access.Request.{Verified, Request}
use real_estate_multi_tenant.Access.Scoped.{
  Keeps, Contained, Contained-respond, Keeps-plain, Keeps-public_scoped,
}
use real_estate_multi_tenant.Tenants.Repository
use real_estate_multi_tenant.Tenants.Service.{get_tenant_stats}
use real_estate_multi_tenant.Stats.Controller.{
  Floats, Totals, add_totals, count_projects, analyze_units, aggregate, collect_stats, get_stats,
  stats_handle,
}

module _ {R : Db → Db → Type 0} (P : Preorder R) where
  count_projects-Respects : (schema : String) → Respects R (count_projects schema)
  unfolding count_projects
  count_projects-Respects schema = search (P, respects_rules)

  analyze_units-Respects : (schema : String) → Respects R (analyze_units schema)
  unfolding analyze_units
  analyze_units-Respects schema = search (P, respects_rules)

  aggregate-Respects :
      (f : Floats) (ts : List TenantRow) (t : Totals) → Respects R (aggregate f ts t)
  unfolding aggregate
  aggregate-Respects f [] t = Respects-pure P t
  aggregate-Respects f (tenant ∷ rest) t =
      Respects-bind P _ _ (count_projects-Respects tenant.schema_name) λ n.
        Respects-bind P _ _ (analyze_units-Respects tenant.schema_name)
          λ u. aggregate-Respects f rest (add_totals f t n u)

  get_tenant_stats-Respects : Respects R get_tenant_stats
  unfolding get_tenant_stats Repository.count
  get_tenant_stats-Respects = search (P, respects_rules)

  module _ (f : Floats) where
    get_stats-Contained : Contained R (get_stats f)
    unfolding get_stats collect_stats
    get_stats-Contained =
        search (P, respects_rules, Contained-respond, get_tenant_stats-Respects, aggregate-Respects)
          depth 8

    pub stats_handle-Keeps :
        (verify : String → Verified) (req : Request) → Keeps R (stats_handle f verify req)
    unfolding stats_handle
    stats_handle-Keeps verify req =
        Keeps-public_scoped P verify req _ (λ user. Keeps-plain P _ get_stats-Contained)
