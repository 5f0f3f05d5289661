-- ===== src/Prelude/Strings.antt =====
-- Strings that begin in the same way.
use Prim.Native.Char.{Char, code}
use Prim.Native.Nat.{ℕ, ◌+◌}
use Prim.Native.String
use Prim.Native.String.append
use Prim.Native.String.{String}
use mathlib.Core.Path.{◌≡◌, ap, sym, ◌∙◌}
use mathlib.Core.Logic.{◌≢◌}
use mathlib.Core.Bool.{Bool, true, false}
use mathlib.Core.Logic.{inl, inr}
use text.Mathlib.Text.{◌==◌}
use text.Mathlib.TextEquality.{eq_iff}
use native.Mathlib.Omega.{arith}
use real_estate_multi_tenant.Prelude.Booleans.{Bool-cases}

-- How many characters a text has.
unfoldable pub text_length : String → ℕ
text_length String.[] = 0
text_length (String.◌∷◌ c s) = 1 + text_length s

tail : String → String
tail String.[] = String.[]
tail (String.◌∷◌ c s) = s

-- A prefix may be cancelled.
pub prefix_injective : (p a b : String) → String.◌++◌ p a ≡ String.◌++◌ p b → a ≡ b
unfolding tail
prefix_injective String.[] a b e = sym (append.nil a) ∙ (e ∙ append.nil b)
prefix_injective (String.◌∷◌ c p) a b e =
    prefix_injective p a b (ap tail (sym (append.cons c p a) ∙ (e ∙ append.cons c p b)))

is_empty : String → Bool
is_empty String.[] = true
is_empty (String.◌∷◌ c s) = Bool.false

pub prefix_nonempty : (c : Char) (p a : String) → String.◌++◌ (String.◌∷◌ c p) a ≢ ""
unfolding is_empty
prefix_nonempty c p a e =
    let h : Bool.false ≡ true = ap is_empty (sym (append.cons c p a) ∙ e) in ground arith

head_code : String → ℕ
head_code String.[] = 0
head_code (String.◌∷◌ c s) = code c

pub prefix_differs :
    (c d : Char) (p a q : String)
    → code c ≢ code d
    → String.◌++◌ (String.◌∷◌ c p) a ≢ String.◌∷◌ d q
unfolding head_code
prefix_differs c d p a q n e = n (ap head_code (sym (append.cons c p a) ∙ e))

pub str_eq-differs : (a b : String) → a ≢ b → (a == b) ≡ false
str_eq-differs a b n = elim (Bool-cases (a == b)) [
  | inl same ↦ absurd (n ((eq_iff a b).0 same))
  | inr differs ↦ differs
]
