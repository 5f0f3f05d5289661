-- ===== src/Api/Growth.antt =====
-- The rules of the units hold under every request to the API.
use real_estate_multi_tenant.Prelude.{String, List}
use real_estate_multi_tenant.Db.{Db}
use real_estate_multi_tenant.Access.Isolation.{Logging, Logging-anything}
use real_estate_multi_tenant.Tenants.Creating.{TenantWrites, TenantWrites-RouteWrites}
use real_estate_multi_tenant.Units.Valid.{
  KeepsValid, KeepsValid-preorder, KeepsValid-new, valid_writes,
}
use real_estate_multi_tenant.Units.Lifecycle.{
  UnitsGrow, UnitsGrow-preorder, UnitsGrow-new, growing_writes,
}
use real_estate_multi_tenant.Api.Routes.{Outside, ApiRequest, serve_all}
use real_estate_multi_tenant.Api.Actions.{ApiWrites, serve_all-R}
use real_estate_multi_tenant.Api.Free.{free_users, free_projects, any_admin, free_tenants}

growing_tenants : TenantWrites UnitsGrow
growing_tenants =
    let P = UnitsGrow-preorder in
    free_tenants P (λ name s t. record { at = (P.refl s).at })
      (any_admin P (λ name s t. record { at = (P.refl s).at }))
      (record {
        making = λ name s. record { at = (P.refl s).at };
        indexing = λ name index s. record { at = (P.refl s).at };
        add_users = λ name s e. record { at = (P.refl s).at };
        add_projects = λ name s e. record { at = (P.refl s).at };
        add_units = UnitsGrow-new;
        add_audit_logs = λ name s e. record { at = (P.refl s).at };
      })
      (λ s0 s h. record { at = h.at })

growing_api : (o : Outside) → ApiWrites o UnitsGrow
growing_api o =
    let P = UnitsGrow-preorder in
    let L : (schema : String) → Logging UnitsGrow schema =
      λ schema. Logging-anything P schema (λ s t. record { at = (P.refl s).at }) in
    record {
      users = λ schema.
          free_users P schema (L schema) o.hash (λ name s t. record { at = (P.refl s).at });
      projects =
          λ schema. free_projects P schema (L schema) (λ name s t. record { at = (P.refl s).at });
      units = growing_writes;
      tenants = TenantWrites-RouteWrites P growing_tenants o.pending o.hash;
    }

-- Whatever requests come to the API, in whatever order, of whichever users, and whichever statements
-- fail, no unit of any schema is removed, its status never goes back, and the holder and the times
-- of a booking or sale, once set, do not change.
pub serve_all-UnitsGrow :
    (o : Outside) (requests : List ApiRequest) (s : Db) → UnitsGrow s (serve_all o requests s)
serve_all-UnitsGrow o requests s = serve_all-R o UnitsGrow-preorder (growing_api o) requests s

valid_tenants : TenantWrites KeepsValid
valid_tenants =
    free_tenants KeepsValid-preorder (λ name s t h. record { at = h.at })
      (any_admin KeepsValid-preorder (λ name s t h. record { at = h.at }))
      (record {
        making = λ name s h. record { at = h.at };
        indexing = λ name index s h. record { at = h.at };
        add_users = λ name s e h. record { at = h.at };
        add_projects = λ name s e h. record { at = h.at };
        add_units = KeepsValid-new;
        add_audit_logs = λ name s e h. record { at = h.at };
      })
      (λ s0 s k h. record { at = (k h).at })

pub valid_api : (o : Outside) → ApiWrites o KeepsValid
valid_api o =
    let P = KeepsValid-preorder in
    let L : (schema : String) → Logging KeepsValid schema =
      λ schema. Logging-anything P schema (λ s t h. record { at = h.at }) in
    record {
      users = λ schema. free_users P schema (L schema) o.hash (λ name s t h. record { at = h.at });
      projects = λ schema. free_projects P schema (L schema) (λ name s t h. record { at = h.at });
      units = valid_writes;
      tenants = TenantWrites-RouteWrites P valid_tenants o.pending o.hash;
    }
