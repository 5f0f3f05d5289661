-- ===== src/Tenants/Names.antt =====
-- The names of schemas, which the code writes between quotes into its statements.
use Prim.Native.Char.{Char, code}
use Prim.Native.String
use Prim.Native.String.append
use real_estate_multi_tenant.Prelude.{
  ℕ, zero, suc, ◌-◌, ◌<◌, ◌≡◌, refl, String, Bool, true, ◌&&◌, ◌||◌, ◌==◌, leb, inl, inr,
  Bool-cases, arith, decimal, all_chars, decimal-all, if◌then◌else◌,
}
use real_estate_multi_tenant.Schemas.Manager.{generate_schema_name}
use real_estate_multi_tenant.Tenants.Service.{is_between, slug_char, slug, temp_schema_name}

-- A lower case letter, a digit or an underscore.
abbrev pub is_plain : Char → Bool
is_plain c = is_between 97 122 (code c) || (is_between 48 57 (code c) || (code c == 95))

unfoldable pub plain : String → Bool
unfolding all_chars
plain s = all_chars is_plain s

plain-append : (s t : String) → plain s ≡ true → plain t ≡ true → plain (String.◌++◌ s t) ≡ true
unfolding plain all_chars
plain-append String.[] t h k = rw (append.nil t) k
plain-append (String.◌∷◌ c s) t h k =
    rw (append.cons c s t) (ground (arith, h, plain-append s t (ground (arith, h)) k))

-- Every number below `n` passes a test.
unfoldable pub all_below : (ℕ → Bool) → ℕ → Bool
all_below p zero = true
all_below p (suc n) = p n && all_below p n

pub all_below-at : (p : ℕ → Bool) (n i : ℕ) → all_below p n ≡ true → i < n → p i ≡ true
unfolding all_below
all_below-at p zero i h l = absurd (omega (arith, l))
all_below-at p (suc n) i h l = elim (Bool-cases (i == n)) [
  | inl same ↦ let e : i ≡ n = ground (arith, same) in rw e (ground (arith, h))
  | inr differs ↦ all_below-at p n i (ground (arith, h)) (ground (arith, differs))
]

letters : all_below (λ i. is_plain (String.char_at "abcdefghijklmnopqrstuvwxyz" i)) 26 ≡ true
unfolding all_below
letters = refl

lower :
    (i : ℕ) → i < 26 → plain (String.◌∷◌ (String.char_at "abcdefghijklmnopqrstuvwxyz" i) "") ≡ true
unfolding plain all_chars
lower i l =
    let h : is_plain (String.char_at "abcdefghijklmnopqrstuvwxyz" i) ≡ true =
      all_below-at (λ i. is_plain (String.char_at "abcdefghijklmnopqrstuvwxyz" i)) 26 i letters l in
    rw h

special :
    (n : ℕ)
    → plain
        (if n == 8490 then "k" else if n == 304 then "i_" else if leb 65536 n then "__" else "_")
      ≡ true
unfolding plain all_chars
special n = elim (Bool-cases (n == 8490)) [
  | inl a ↦ rw a
  | inr a ↦ elim (Bool-cases (n == 304)) [
    | inl b ↦ rw (a, b)
    | inr b ↦ elim (Bool-cases (leb 65536 n)) [ inl d ↦ rw (a, b, d) | inr d ↦ rw (a, b, d) ]
  ]
]

digits : all_below (λ d. is_plain (String.char_at "0123456789" d)) 10 ≡ true
unfolding all_below
digits = refl

slug_char-Plain : (c : Char) → plain (slug_char c) ≡ true
unfolding slug_char plain all_chars
slug_char-Plain c =
    let n = code c in
    elim (Bool-cases (is_between 97 122 n || is_between 48 57 n)) [
      | inl kept ↦ rw kept (ground (arith, kept))
      | inr odd ↦ rw odd (elim (Bool-cases (is_between 65 90 n)) [
        | inl upper ↦ rw upper (lower (n - 65) (ground (arith, upper)))
        | inr other ↦ rw other (special n)
      ])
    ]

slug-Plain : (s : String) → plain (slug s) ≡ true
unfolding slug plain all_chars
slug-Plain String.[] = refl
slug-Plain (String.◌∷◌ c s) = plain-append (slug_char c) (slug s) (slug_char-Plain c) (slug-Plain s)

decimal-Plain : (n : ℕ) → plain (decimal n) ≡ true
unfolding plain
decimal-Plain n =
    decimal-all is_plain
      (λ d l. all_below-at (λ d. is_plain (String.char_at "0123456789" d)) 10 d digits l) n

tenant_plain : plain "tenant_" ≡ true
unfolding plain all_chars
tenant_plain = refl

underscore_plain : plain "_" ≡ true
unfolding plain all_chars
underscore_plain = refl

-- Whatever a tenant is called, the temporary name of its schema is made of lower case letters, digits
-- and underscores, and so is the name that the id gives: neither can end the quotes that the code
-- writes around it.
pub schema_names-Plain :
    (name : String) (now id : ℕ)
    → (plain (temp_schema_name name now) ≡ true) × (plain (generate_schema_name id) ≡ true)
unfolding temp_schema_name generate_schema_name
schema_names-Plain name now id = (
  plain-append "tenant_" (String.◌++◌ (slug name) (String.◌++◌ "_" (decimal now))) tenant_plain (
      plain-append (slug name) (String.◌++◌ "_" (decimal now)) (slug-Plain name)
        (plain-append "_" (decimal now) underscore_plain (decimal-Plain now))),
  plain-append "tenant_" (decimal id) tenant_plain (decimal-Plain id),
)
