-- ===== src/Tenants/Fresh.antt =====
-- The names of schemas that are free: the one of the next id, and the temporary one.
use Prim.Native.Char.{Char, code}
use Prim.Native.String
use Prim.Native.String.append
use real_estate_multi_tenant.Prelude.{
  ℕ, ◌≡◌, ◌≢◌, refl, sym, ap, ◌∙◌, String, Bool, true, false, not, ◌==◌, List, [], ◌∷◌, ◌++◌, any,
  inl, inr, Bool-cases, arith, str_eq, str_eq-differs, decimal, decimal-all, all_chars,
  prefix_injective,
}
use real_estate_multi_tenant.Db.{TenantRow}
use real_estate_multi_tenant.Schemas.Manager.{generate_schema_name}
use real_estate_multi_tenant.Tenants.Repository.{
  has_schema_name, is_subscription, fits_lengths, still_accepts,
}
use real_estate_multi_tenant.Tenants.Service.{slug, temp_schema_name}
use real_estate_multi_tenant.Tenants.Sound.{Sound, generate-injective}
use real_estate_multi_tenant.Tenants.Names.{all_below, all_below-at}

abbrev no_underscore : Char → Bool
no_underscore c = not (code c == 95)

digits : all_below (λ d. no_underscore (String.char_at "0123456789" d)) 10 ≡ true
unfolding all_below
digits = refl

all_chars-middle :
    (p : Char → Bool) (s t : String) (c : Char)
    → p c ≡ false
    → all_chars p (String.◌++◌ s (String.◌++◌ (String.◌∷◌ c "") t)) ≡ false
unfolding all_chars
all_chars-middle p String.[] t c e =
    rw (append.nil (String.◌++◌ (String.◌∷◌ c "") t), append.cons c "" t, e) refl
all_chars-middle p (String.◌∷◌ d s) t c e =
    rw (append.cons d s (String.◌++◌ (String.◌∷◌ c "") t), all_chars-middle p s t c e)
      (ground arith)

-- A temporary name has an underscore behind the prefix, a numeral has none.
generate-not_temp :
    (id : ℕ) (name : String) (now : ℕ) → generate_schema_name id ≢ temp_schema_name name now
unfolding generate_schema_name temp_schema_name
generate-not_temp id name now e =
    let same : decimal id ≡ String.◌++◌ (slug name) (String.◌++◌ "_" (decimal now)) =
      prefix_injective "tenant_" _ _ e in
    let plain : all_chars no_underscore (decimal id) ≡ true =
      decimal-all no_underscore (λ d l. all_below-at _ 10 d digits l) id in
    let bad : all_chars no_underscore (decimal id) ≡ false =
      ap (all_chars no_underscore) same
      ∙ all_chars-middle no_underscore (slug name) (decimal now) "_" refl in
    let clash : true ≡ false = sym plain ∙ bad in ground arith

pub temp-Free :
    (n : ℕ) (ts : List TenantRow) (name : String) (now : ℕ)
    → Sound n ts
    → any (has_schema_name (temp_schema_name name now)) ts ≡ false
unfolding any has_schema_name
temp-Free n [] name now v = refl
temp-Free n (t ∷ ts) name now (z, b, e, d, v) =
    let miss : str_eq t.schema_name (temp_schema_name name now) ≡ false =
      str_eq-differs _ _ (λ h. generate-not_temp t.id name now (sym e ∙ h)) in
    rw miss (temp-Free n ts name now v)

any-append :
    {A : Type 0} (p : A → Bool) (xs : List A) (x : A)
    → any p xs ≡ false
    → p x ≡ false
    → any p (xs ++ x ∷ []) ≡ false
unfolding any
any-append p [] x h e = rw e refl
any-append p (y ∷ ys) x h e = elim (Bool-cases (p y)) [
  | inl hit ↦ ground (arith, h)
  | inr miss ↦ rw miss (any-append p ys x (ground (arith, h)) e)
]

-- The constraints hold with a row more whose schema is the one of the next id.
pub still_accepts-append :
    (n : ℕ) (ts : List TenantRow) (t : TenantRow)
    → Sound n ts
    → still_accepts ts ≡ true
    → t.schema_name ≡ generate_schema_name n
    → is_subscription t.subscription_type ≡ true
    → fits_lengths t ≡ true
    → still_accepts (ts ++ t ∷ []) ≡ true
unfolding any
still_accepts-append n [] t v h e k l = rw (k, l) refl
still_accepts-append n (u ∷ ts) t (z, b, e', d, v) h e k l =
    let other : str_eq t.schema_name u.schema_name ≡ false =
      str_eq-differs _ _ (λ (same : t.schema_name ≡ u.schema_name).
        omega (arith, b, generate-injective n u.id (sym e ∙ (same ∙ e')))) in
    let alone : any (λ w. str_eq w.schema_name u.schema_name) ts ≡ false = ground (arith, h) in
    let known : is_subscription u.subscription_type ≡ true = ground (arith, h) in
    let short : fits_lengths u ≡ true = ground (arith, h) in
    let rest : still_accepts ts ≡ true = ground (arith, h) in
    rw
      (
        any-append (λ w. str_eq w.schema_name u.schema_name) ts t alone other,
        known,
        short,
        still_accepts-append n ts t v rest e k l,
      )
      refl
