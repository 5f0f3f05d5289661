-- ===== src/Api/WellFormed.antt =====
-- The invariant of the whole database under every request to the API.
use real_estate_multi_tenant.Prelude.{String, List, Option, none, some}
use real_estate_multi_tenant.Db.{UserRow, Table, Db, users, insert_into}
use real_estate_multi_tenant.Db.Respects.{Respects, Respects-insert}
use real_estate_multi_tenant.Db.Transaction.{restore}
use real_estate_multi_tenant.Access.Isolation.{Logging, Logging-anything}
use real_estate_multi_tenant.Users.Repository.{accepts}
use real_estate_multi_tenant.Users.Emails.{
  EmailsDiffer, TableDistinct, KeepsEmails, KeepsEmails-preorder, KeepsEmails-writes,
  write-KeepsEmails, update-TableDistinct, append-Distinct, accepted,
}
use real_estate_multi_tenant.Units.Invariant.{UnitsValid}
use real_estate_multi_tenant.Units.Valid.{KeepsValid-preorder}
use real_estate_multi_tenant.Tenants.Dto.{AdminData}
use real_estate_multi_tenant.Tenants.Service.{admin_row}
use real_estate_multi_tenant.Tenants.Sound.{TenantsSound}
use real_estate_multi_tenant.Tenants.Invariant.{
  KeepsTenants, KeepsTenants-preorder, KeepsTenants-writes,
}
use real_estate_multi_tenant.Tenants.Creating.{TenantWrites, TenantWrites-RouteWrites}
use real_estate_multi_tenant.Api.Routes.{Outside, ApiRequest, serve_all}
use real_estate_multi_tenant.Api.Actions.{ApiWrites, serve_all-R}
use real_estate_multi_tenant.Api.Free.{free_users, free_projects, free_units, free_tenants}
use real_estate_multi_tenant.Api.Growth.{valid_api}
use real_estate_multi_tenant.Api.References.{References, KeepsReferences-preorder, referring_api}

restore-Distinct :
    (before t : Option (Table UserRow)) → TableDistinct before → TableDistinct (restore before t)
restore-Distinct before none h = tt
restore-Distinct none (some t) h = tt
restore-Distinct (some t') (some t) h = h

add-admin :
    (name hashed : String) (admin : AdminData)
    → Respects KeepsEmails (insert_into users name (accepts name) (admin_row admin hashed))
add-admin name hashed admin =
    Respects-insert KeepsEmails-preorder users name (accepts name) (admin_row admin hashed)
      (λ s t e c. write-KeepsEmails name s t _ e (append-Distinct t.rows _ (accepted name s t _ c)))
      (λ s t e. write-KeepsEmails name s t _ e (λ d. d))

email_tenants : TenantWrites KeepsEmails
email_tenants =
    free_tenants KeepsEmails-preorder (λ name s t. record { keep = λ h. record { at = h.at } })
      add-admin
      (record {
        making = λ name s. record { keep = λ h. record { at = h.at } };
        indexing = λ name index s. record { keep = λ h. record { at = h.at } };
        add_users = λ schema s e. record {
          keep = λ h. record {
            at = λ name. update-TableDistinct s.users schema name _ (h.at name) tt;
          };
        };
        add_projects = λ name s e. record { keep = λ h. record { at = h.at } };
        add_units = λ name s e. record { keep = λ h. record { at = h.at } };
        add_audit_logs = λ name s e. record { keep = λ h. record { at = h.at } };
      })
      (λ s0 s k. record {
        keep = λ h. record {
          at = λ name. restore-Distinct (s0.users name) (s.users name) (h.at name);
        };
      })

emails_api : (o : Outside) → ApiWrites o KeepsEmails
emails_api o =
    let P = KeepsEmails-preorder in
    let L : (schema : String) → Logging KeepsEmails schema =
      λ schema. Logging-anything P schema (λ s t. record { keep = λ h. record { at = h.at } }) in
    record {
      users = KeepsEmails-writes o.hash;
      projects = λ schema.
          free_projects P schema (L schema)
            (λ name s t. record { keep = λ h. record { at = h.at } });
      units = λ schema.
          free_units P schema (L schema) (λ name s t. record { keep = λ h. record { at = h.at } });
      tenants = TenantWrites-RouteWrites P email_tenants o.pending o.hash;
    }

tenants_api : (o : Outside) → ApiWrites o KeepsTenants
tenants_api o =
    let P = KeepsTenants-preorder in
    let L : (schema : String) → Logging KeepsTenants schema = λ schema.
      Logging-anything P schema
        (λ s t. record { keep = λ h. record { rows = h.rows; positive = h.positive } }) in
    record {
      users = λ schema.
          free_users P schema (L schema) o.hash
            (λ name s t. record { keep = λ h. record { rows = h.rows; positive = h.positive } });
      projects = λ schema.
          free_projects P schema (L schema)
            (λ name s t. record { keep = λ h. record { rows = h.rows; positive = h.positive } });
      units = λ schema.
          free_units P schema (L schema)
            (λ name s t. record { keep = λ h. record { rows = h.rows; positive = h.positive } });
      tenants = KeepsTenants-writes o.pending o.hash;
    }

-- The units of each schema are valid and belong to its projects, the emails of its users differ, and
-- the registry of tenants is sound.
pub record WellFormed (s : Db) : Type 0 where
  pub units : UnitsValid s
  pub references : References s
  pub emails : EmailsDiffer s
  pub tenants : TenantsSound s

-- Whatever requests come to the API, in whatever order, of whichever users, and whichever statements
-- fail, a well-formed database stays well-formed: the units of each schema keep their invariant, each
-- belongs to a project of its schema, the emails of a schema's users differ, and the registry of
-- tenants is sound.
pub serve_all-WellFormed :
    (o : Outside) (requests : List ApiRequest) (s : Db)
    → WellFormed s
    → WellFormed (serve_all o requests s)
serve_all-WellFormed o requests s w = record {
  units = serve_all-R o KeepsValid-preorder (valid_api o) requests s w.units;
  references =
      (serve_all-R o KeepsReferences-preorder (referring_api o) requests s).keep w.references;
  emails = (serve_all-R o KeepsEmails-preorder (emails_api o) requests s).keep w.emails;
  tenants = (serve_all-R o KeepsTenants-preorder (tenants_api o) requests s).keep w.tenants;
}
