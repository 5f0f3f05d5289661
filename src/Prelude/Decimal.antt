-- ===== src/Prelude/Decimal.antt =====
-- Decimal numerals: what a template string writes for a number that is not negative.
use Prim.Native.Nat.{ℕ, zero, suc, ◌+◌, ◌-◌, ◌*◌, ◌/◌, ◌%◌, ◌<◌}
use Prim.Native.String.{String, [], ◌∷◌, char_at}
use Prim.Native.Char.{Char, code}
use mathlib.Core.Path.{◌≡◌, refl, ap, sym, ◌∙◌}
use mathlib.Core.Logic.{inl, inr}
use mathlib.Core.Bool.{Bool, true, ◌&&◌}
use native.Mathlib.Omega.{arith}
use real_estate_multi_tenant.Prelude.Booleans.{◌==◌, ==_iff, if◌then◌else◌, Bool-cases}

digit : ℕ → Char
digit d = char_at "0123456789" d

code-digit : (d : ℕ) → d < 10 → code (digit d) ≡ 48 + d
unfolding digit
code-digit zero h = refl
code-digit (suc zero) h = refl
code-digit (suc (suc zero)) h = refl
code-digit (suc (suc (suc zero))) h = refl
code-digit (suc (suc (suc (suc zero)))) h = refl
code-digit (suc (suc (suc (suc (suc zero))))) h = refl
code-digit (suc (suc (suc (suc (suc (suc zero)))))) h = refl
code-digit (suc (suc (suc (suc (suc (suc (suc zero))))))) h = refl
code-digit (suc (suc (suc (suc (suc (suc (suc (suc zero)))))))) h = refl
code-digit (suc (suc (suc (suc (suc (suc (suc (suc (suc zero))))))))) h = refl
code-digit (suc (suc (suc (suc (suc (suc (suc (suc (suc (suc d)))))))))) h = omega (arith, h)

-- The fuel is larger than the number, and a number is divided by ten in each round.
emit : ℕ → ℕ → String → String
unfolding digit
emit zero n out = out
emit (suc k) n out =
    let shown = digit (n % 10) ∷ out in
    let rest = emit k (n / 10) shown in if n / 10 == 0 then shown else rest

unfoldable pub decimal : ℕ → String
unfolding emit
decimal n = emit (suc n) n ""

-- The number that the digits spell behind `n`.
value : ℕ → String → ℕ
value n [] = n
value n (c ∷ s) = value (n * 10 + (code c - 48)) s

value-digit : (d n : ℕ) (out : String) → d < 10 → value n (digit d ∷ out) ≡ value (n * 10 + d) out
unfolding value
value-digit d n out h = ap (λ m. value m out) (omega (arith, code-digit d h))

value-emit : (k n : ℕ) (out : String) → n < k → value 0 (emit k n out) ≡ value n out
unfolding emit
value-emit zero n out h = absurd (omega (arith, h))
value-emit (suc k) n out h =
    let last : value (n / 10) (digit (n % 10) ∷ out) ≡ value n out =
      value-digit (n % 10) (n / 10) out (omega arith) ∙ ap (λ m. value m out) (omega arith) in
    elim (Bool-cases (n / 10 == 0)) [
      | inl e ↦
          rw e (ap (λ m. value m (digit (n % 10) ∷ out)) (sym ((==_iff (n / 10) 0).0 e)) ∙ last)
      | inr e ↦ rw e (value-emit k (n / 10) (digit (n % 10) ∷ out) (ground arith) ∙ last)
    ]

-- Different numbers have different numerals.
pub decimal_injective : (a b : ℕ) → decimal a ≡ decimal b → a ≡ b
unfolding decimal value
decimal_injective a b e =
    sym (value-emit (suc a) a "" (omega arith))
    ∙ ap (value 0) e
    ∙ value-emit (suc b) b "" (omega arith)

-- Every character passes a test.
unfoldable pub all_chars : (Char → Bool) → String → Bool
all_chars p [] = true
all_chars p (c ∷ s) = p c && all_chars p s

module _ (p : Char → Bool) (digits : (d : ℕ) → d < 10 → p (char_at "0123456789" d) ≡ true) where
  emit-all : (k n : ℕ) (out : String) → all_chars p out ≡ true → all_chars p (emit k n out) ≡ true
  unfolding emit all_chars digit
  emit-all zero n out h = h
  emit-all (suc k) n out h =
      let shown : p (digit (n % 10)) && all_chars p out ≡ true =
        ground (arith, h, digits (n % 10) (omega arith)) in
      elim (Bool-cases (n / 10 == 0)) [
        | inl e ↦ rw e shown
        | inr e ↦ rw e (emit-all k (n / 10) (digit (n % 10) ∷ out) shown)
      ]

  -- A test that the ten digits pass holds of every character of a numeral.
  pub decimal-all : (n : ℕ) → all_chars p (decimal n) ≡ true
  unfolding decimal all_chars
  decimal-all n = emit-all (suc n) n "" refl
