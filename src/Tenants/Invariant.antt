-- ===== src/Tenants/Invariant.antt =====
-- The registry of tenants stays sound under every request to /tenants.
use mathlib.Core.Path.{subst}
use real_estate_multi_tenant.Prelude.{
  ℕ, ◌≡◌, refl, sym, ◌∙◌, String, Bool, List, some, inl, inr, ap, arith,
}
use real_estate_multi_tenant.Db.{TenantRow, Table, Db, Result, ok, err, tenants, set_rows}
use real_estate_multi_tenant.Db.Respects.{Preorder, Respects-update}
use real_estate_multi_tenant.Db.Ends.{Ends}
use real_estate_multi_tenant.Access.Request.{Verified, Request}
use real_estate_multi_tenant.Schemas.Migrations.{Migration}
use real_estate_multi_tenant.Schemas.Manager.{generate_schema_name}
use real_estate_multi_tenant.Tenants.Dto.{CreateTenantDto}
use real_estate_multi_tenant.Tenants.Repository.{fields, active, set_change, has_id, still_accepts}
use real_estate_multi_tenant.Tenants.Service.{create_tenant}
use real_estate_multi_tenant.Tenants.Routes.{TenantCall, tenants_handle}
use real_estate_multi_tenant.Tenants.Actions.{RouteWrites, tenants_handle-Keeps}
use real_estate_multi_tenant.Tenants.Sound.{TenantsSound, Sound, Sound-le, Sound-append, Sound-set}
use real_estate_multi_tenant.Tenants.Creation.{Created}
use real_estate_multi_tenant.Tenants.Atomic.{Kept, Thrown, Returned, create_tenant-Ends}

pub record KeepsTenants (s s' : Db) : Type 0 where
  pub keep : TenantsSound s → TenantsSound s'

pub KeepsTenants-preorder : Preorder KeepsTenants
KeepsTenants-preorder = record {
  refl = λ s. record { keep = λ h. h };
  trans = λ s t u h k. record { keep = λ d. k.keep (h.keep d) };
  count = λ s n. record { keep = λ h. record { rows = h.rows; positive = h.positive } };
  path = λ s p. record { keep = λ h. record { rows = h.rows; positive = h.positive } };
}

Created-Sound :
    (dto : CreateTenantDto) (s : Db) (id : ℕ) (s' : Db)
    → Created dto s id s'
    → TenantsSound s
    → TenantsSound s'
Created-Sound dto s id s' c h = record {
  rows = rw c.appended (
      Sound-append s.tenants.next s.tenants.rows c.row h.rows h.positive (c.has_id ∙ c.new_id)
        (c.schema ∙ ap generate_schema_name (sym c.has_id)));
  positive = rw c.appended (λ e. omega (arith, e));
}

Kept-Sound : (s s' : Db) → Kept s s' → TenantsSound s → TenantsSound s'
Kept-Sound s s' k h = record {
  rows = rw k.rows (Sound-le s.tenants.next s'.tenants.next s.tenants.rows k.next h.rows);
  positive = λ e. h.positive (omega (arith, e, k.next));
}

Thrown-Sound :
    (dto : CreateTenantDto) (s s' : Db) → Thrown dto s s' → TenantsSound s → TenantsSound s'
Thrown-Sound dto s s' (inl kept) h = Kept-Sound s s' kept h
Thrown-Sound dto s s' (inr (id, c)) h = Created-Sound dto s id s' c h

Ends-Sound :
    (dto : CreateTenantDto) (s : Db) (r : Result TenantRow) (s' : Db)
    → Ends (Returned dto s) (Thrown dto s) (r, s')
    → TenantsSound s
    → TenantsSound s'
Ends-Sound dto s (ok t) s' (c, e) h = Created-Sound dto s t.id s' c h
Ends-Sound dto s (err e) s' thrown h = Thrown-Sound dto s s' thrown h

set-KeepsTenants :
    (id : ℕ) (f : TenantRow → TenantRow)
    → ((u : TenantRow) → (f u).id ≡ u.id)
    → ((u : TenantRow) → (f u).schema_name ≡ u.schema_name)
    → (s : Db) (t : Table TenantRow) → some s.tenants ≡ some t
    → KeepsTenants s (tenants.write "public" (record t { rows = set_rows (has_id id) f t.rows }) s)
set-KeepsTenants id f same_id same_schema s t e =
    let same : s.tenants ≡ t = cc in
    record {
      keep = λ h. record {
        rows =
            subst (λ (T : Table TenantRow). Sound T.next (set_rows (has_id id) f T.rows)) same
              (Sound-set id f same_id same_schema s.tenants.next s.tenants.rows h.rows);
        positive = λ z. h.positive (ap (λ (T : Table TenantRow). T.next) same ∙ z);
      };
    }

module _ (pending : String → Db → Result (List Migration)) (hash : ℕ → String → String) where
  pub KeepsTenants-writes : RouteWrites pending hash KeepsTenants
  KeepsTenants-writes = record {
    setting = λ id dto.
        Respects-update KeepsTenants-preorder tenants "public" (has_id id) still_accepts
          (set_change (fields dto))
          (λ s t e c. set-KeepsTenants id _ (λ u. refl) (λ u. refl) s t e);
    switching = λ id b.
        Respects-update KeepsTenants-preorder tenants "public" (has_id id) still_accepts
          (set_change (active b)) (λ s t e c. set-KeepsTenants id _ (λ u. refl) (λ u. refl) s t e);
    creating = λ dto. record {
      at = λ s. record {
        keep = λ h.
            Ends-Sound dto s (create_tenant pending hash dto s).0
              (create_tenant pending hash dto s).1 (create_tenant-Ends pending hash dto s h.rows) h;
      };
    };
  }

  -- Whatever a request under /tenants asks for, and whichever statements fail, the ids of the tenants
  -- stay distinct, not 0 and below the sequence, and each schema is named after its tenant's id.
  pub tenants_handle-TenantsSound :
      (order : List TenantRow → List TenantRow) (passes : Bool) (verify : String → Verified)
      (req : Request) (call : TenantCall) (s : Db)
      → TenantsSound s
      → TenantsSound (tenants_handle pending hash order passes verify req call s).1
  tenants_handle-TenantsSound order passes verify req call s h =
      ((tenants_handle-Keeps KeepsTenants-preorder pending hash KeepsTenants-writes order passes
            verify req call).at
          s).keep
        h
