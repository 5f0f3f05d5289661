-- ===== src/Tenants/Sound.antt =====
-- The registry of tenants: ids are distinct, not 0 and below the sequence, and the schema of a tenant
-- is named after its id.
use real_estate_multi_tenant.Prelude.{
  ℕ, suc, ◌≡◌, ◌≢◌, ◌≤◌, ◌<◌, refl, sym, ap, ◌∙◌, Bool, List, [], ◌∷◌, ◌++◌, inl, inr, Bool-cases,
  All, All-append, filter, ◌==◌, arith, decimal, decimal_injective, prefix_injective,
  prefix_nonempty, prefix_differs, if◌then◌else◌,
}
use real_estate_multi_tenant.Db.{TenantRow, Db, set_rows}
use real_estate_multi_tenant.Schemas.Manager.{generate_schema_name}
use real_estate_multi_tenant.Tenants.Repository.{has_id}
use real_estate_multi_tenant.Users.Login.{In}
use real_estate_multi_tenant.Users.Session.{TenantsValid}

abbrev pub Sound : ℕ → List TenantRow → Type 0
Sound n [] = Unit
Sound n (t ∷ ts) =
    (t.id ≢ 0)
    × (t.id < n)
    × (t.schema_name ≡ generate_schema_name t.id)
    × All (λ u. u.id ≢ t.id) ts
    × Sound n ts

pub record TenantsSound (s : Db) : Type 0 where
  pub rows : Sound s.tenants.next s.tenants.rows
  pub positive : s.tenants.next ≢ 0

pub Sound-le : (n m : ℕ) (ts : List TenantRow) → n ≤ m → Sound n ts → Sound m ts
Sound-le n m [] h v = tt
Sound-le n m (t ∷ ts) h (z, b, e, d, v) = (z, ground arith, e, d, Sound-le n m ts h v)

below : (n : ℕ) (ts : List TenantRow) → Sound n ts → All (λ u. u.id < n) ts
below n [] v = tt
below n (t ∷ ts) (z, b, e, d, v) = (b, below n ts v)

pub Sound-append :
    (n : ℕ) (ts : List TenantRow) (t : TenantRow)
    → Sound n ts
    → n ≢ 0
    → t.id ≡ n
    → t.schema_name ≡ generate_schema_name t.id
    → Sound (suc n) (ts ++ t ∷ [])
Sound-append n [] t v p i e = ((λ z. p (sym i ∙ z)), ground arith, e, tt, tt)
Sound-append n (u ∷ ts) t (z, b, e', d, v) p i e = (
  z,
  ground arith,
  e',
  All-append (λ w. w.id ≢ u.id) ts (t ∷ []) d (ground arith, tt),
  Sound-append n ts t v p i e,
)

module _ (id : ℕ) (f : TenantRow → TenantRow) (same_id : (t : TenantRow) → (f t).id ≡ t.id)
    (same_schema : (t : TenantRow) → (f t).schema_name ≡ t.schema_name) where
  set-id : (t : TenantRow) → (if has_id id t then f t else t).id ≡ t.id
  set-id t = elim (Bool-cases (has_id id t)) [ inl e ↦ rw e (same_id t) | inr e ↦ rw e ]

  set-schema : (t : TenantRow) → (if has_id id t then f t else t).schema_name ≡ t.schema_name
  set-schema t = elim (Bool-cases (has_id id t)) [ inl e ↦ rw e (same_schema t) | inr e ↦ rw e ]

  set-others :
      (t : TenantRow) (ts : List TenantRow)
      → All (λ u. u.id ≢ t.id) ts
      → All (λ u. u.id ≢ (if has_id id t then f t else t).id) (set_rows (has_id id) f ts)
  set-others t [] d = tt
  set-others t (u ∷ ts) (n, d) = ((λ e. n (sym (set-id u) ∙ (e ∙ set-id t))), set-others t ts d)

  pub Sound-set : (n : ℕ) (ts : List TenantRow) → Sound n ts → Sound n (set_rows (has_id id) f ts)
  Sound-set n [] v = tt
  Sound-set n (t ∷ ts) (z, b, e, d, v) = (
    (λ h. z (sym (set-id t) ∙ h)),
    rw (set-id t) b,
    set-schema t ∙ (e ∙ ap generate_schema_name (sym (set-id t))),
    set-others t ts d,
    Sound-set n ts v,
  )

-- The id that the sequence gives next belongs to no row.
pub set_rows-fresh :
    (n m : ℕ) (f : TenantRow → TenantRow) (ts : List TenantRow)
    → Sound n ts
    → n ≤ m
    → set_rows (has_id m) f ts ≡ ts
unfolding has_id
set_rows-fresh n m f [] v h = refl
set_rows-fresh n m f (t ∷ ts) (z, b, e, d, v) h =
    let miss : (t.id == m) ≡ Bool.false = ground arith in
    rw miss (ap (λ rest. t ∷ rest) (set_rows-fresh n m f ts v h))

pub filter-fresh :
    (n m : ℕ) (ts us : List TenantRow)
    → Sound n ts
    → n ≤ m
    → filter (has_id m) (ts ++ us) ≡ filter (has_id m) us
unfolding filter has_id
filter-fresh n m [] us v h = refl
filter-fresh n m (t ∷ ts) us (z, b, e, d, v) h =
    let miss : (t.id == m) ≡ Bool.false = ground arith in rw miss (filter-fresh n m ts us v h)

-- Schemas that are named after different ids have different names.
pub generate-injective : (n m : ℕ) → generate_schema_name n ≡ generate_schema_name m → n ≡ m
unfolding generate_schema_name
generate-injective n m e =
    decimal_injective n m (prefix_injective "tenant_" (decimal n) (decimal m) e)

generate-nonempty : (n : ℕ) → generate_schema_name n ≢ ""
unfolding generate_schema_name
generate-nonempty n = prefix_nonempty "t" "enant_" (decimal n)

pub generate-not_public : (n : ℕ) → generate_schema_name n ≢ "public"
unfolding generate_schema_name
generate-not_public n = prefix_differs "t" "p" "enant_" (decimal n) "ublic" (λ e. omega (arith, e))

pub Sound-TenantsValid : (n : ℕ) (ts : List TenantRow) → Sound n ts → TenantsValid ts
Sound-TenantsValid n [] v = tt
Sound-TenantsValid n (t ∷ ts) (z, b, e, d, v) =
    (d, z, (λ h. generate-nonempty t.id (sym e ∙ h)), Sound-TenantsValid n ts v)

In-id :
    (n : ℕ) (ts : List TenantRow) (t u : TenantRow)
    → All (λ v. v.id ≢ t.id) ts
    → In u ts
    → u.id ≢ t.id
In-id n [] t u d m = absurd m
In-id n (v ∷ ts) t u (d, ds) (inl same) = λ e. d (ap (λ (r : TenantRow). r.id) same ∙ e)
In-id n (v ∷ ts) t u (d, ds) (inr later) = In-id n ts t u ds later

named-after :
    (n : ℕ) (ts : List TenantRow) (t : TenantRow)
    → Sound n ts
    → In t ts
    → t.schema_name ≡ generate_schema_name t.id
named-after n [] t v m = absurd m
named-after n (u ∷ ts) t (z, b, e, d, v) (inl same) =
    sym (ap (λ (r : TenantRow). r.schema_name) same)
    ∙ (e ∙ ap (λ (r : TenantRow). generate_schema_name r.id) same)
named-after n (u ∷ ts) t (z, b, e, d, v) (inr later) = named-after n ts t v later

same-row :
    (n : ℕ) (ts : List TenantRow) (t u : TenantRow)
    → Sound n ts
    → In t ts
    → In u ts
    → t.id ≡ u.id
    → t ≡ u
same-row n [] t u v m k e = absurd m
same-row n (w ∷ ts) t u v (inl a) (inl b) e = sym a ∙ b
same-row n (w ∷ ts) t u (z, b, s, d, v) (inl a) (inr k) e =
    absurd (In-id n ts w u d k (sym e ∙ sym (ap (λ (r : TenantRow). r.id) a)))
same-row n (w ∷ ts) t u (z, b, s, d, v) (inr m) (inl k) e =
    absurd (In-id n ts w t d m (e ∙ sym (ap (λ (r : TenantRow). r.id) k)))
same-row n (w ∷ ts) t u (z, b, s, d, v) (inr m) (inr k) e = same-row n ts t u v m k e

-- In a sound registry no two tenants share a schema.
pub Sound-schemas_differ :
    (n : ℕ) (ts : List TenantRow) (t u : TenantRow)
    → Sound n ts
    → In t ts
    → In u ts
    → t.schema_name ≡ u.schema_name
    → t ≡ u
Sound-schemas_differ n ts t u v m k e =
    same-row n ts t u v m k
      (generate-injective t.id u.id (sym (named-after n ts t v m) ∙ (e ∙ named-after n ts u v k)))
