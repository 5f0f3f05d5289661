-- ===== src/Db/Returns.antt =====
-- What holds of the value that an action returns, whatever the state: one rule for each way to
-- build an action.
use real_estate_multi_tenant.Prelude.{◌≡◌, refl, Bool, true, false, if◌then◌else◌}
use real_estate_multi_tenant.Errors.{Error}
use real_estate_multi_tenant.Db.Rows.{Db}
use real_estate_multi_tenant.Db.Exec.{
  Result, ok, err, M, pure, raise, recover, continue, ◌>>=◌, attempt,
}

-- What an action returns, if it returns.
abbrev pub OkHolds : {A : Type 0} → (A → Type 0) → Result A → Type 0
OkHolds P (ok a) = P a
OkHolds P (err e) = Unit

pub record Returns {A : Type 0} (P : A → Type 0) (m : M A) : Type 0 where
  pub at : (s : Db) → OkHolds P (m s).0

module _ {A : Type 0} {P : A → Type 0} where
  pub Returns-pure : (a : A) → P a → Returns P (pure a)
  Returns-pure a h = record { at = λ s. h }

  pub Returns-raise : (e : Error) → Returns P (raise e)
  Returns-raise e = record { at = λ s. tt }

  pub Returns-if :
      (b : Bool) (m n : M A)
      → (b ≡ true → Returns P m)
      → (b ≡ false → Returns P n)
      → Returns P (if b then m else n)
  Returns-if true m n hm hn = hm refl
  Returns-if false m n hm hn = hn refl

  recover-OkHolds :
      (r : Result A) (h : Error → M A)
      → OkHolds P r
      → ((e : Error) → Returns P (h e))
      → (s : Db) → OkHolds P (recover r h s).0
  recover-OkHolds (ok a) h p hh s = p
  recover-OkHolds (err e) h p hh s = (hh e).at s

  pub Returns-attempt :
      (m : M A) (h : Error → M A)
      → Returns P m
      → ((e : Error) → Returns P (h e))
      → Returns P (attempt m h)
  Returns-attempt m h hm hh = record { at = λ s. recover-OkHolds (m s).0 h (hm.at s) hh (m s).1 }

-- Nothing is claimed of the value.
abbrev pub Any : {A : Type 0} → A → Type 0
Any a = Unit

OkHolds-Any : {A : Type 0} (r : Result A) → OkHolds Any r
OkHolds-Any (ok a) = tt
OkHolds-Any (err e) = tt

pub Returns-Any : {A : Type 0} (m : M A) → Returns Any m
Returns-Any m = record { at = λ s. OkHolds-Any (m s).0 }

module _ {A B : Type 0} {P : B → Type 0} where
  continue-OkHolds :
      (r : Result A) (f : A → M B)
      → ((a : A) → r ≡ ok a → Returns P (f a))
      → (s : Db) → OkHolds P (continue r f s).0
  continue-OkHolds (ok a) f hf s = (hf a refl).at s
  continue-OkHolds (err e) f hf s = tt

  pub Returns-bind :
      (Q : A → Type 0) (m : M A) (f : A → M B)
      → Returns Q m
      → ((a : A) → Q a → Returns P (f a))
      → Returns P (m >>= f)
  Returns-bind Q m f hm hf = record {
    at = λ s. continue-OkHolds (m s).0 f (λ a e. hf a (rw e at (hm.at s))) (m s).1;
  }

-- The same with what holds of the first action in one state.
module _ {A B : Type 0} {P : B → Type 0} where
  pub bind-OkHolds :
      (Q : A → Type 0) (m : M A) (f : A → M B) (s : Db)
      → OkHolds Q (m s).0
      → ((a : A) → Q a → Returns P (f a))
      → OkHolds P ((m >>= f) s).0
  bind-OkHolds Q m f s hm hf = continue-OkHolds (m s).0 f (λ a e. hf a (rw e at hm)) (m s).1

module _ {A B : Type 0} (P : B → Type 0) where
  after-OkHolds :
      (Q : A → Type 0) (r : Result A) (f : A → M B) (s : Db)
      → OkHolds Q r
      → ((a : A) → Q a → OkHolds P (f a s).0)
      → OkHolds P (continue r f s).0
  after-OkHolds Q (ok a) f s h k = k a h
  after-OkHolds Q (err e) f s h k = tt

  -- The same where the second action is known in the state that it starts from.
  pub chain-OkHolds :
      (Q : A → Type 0) (m : M A) (f : A → M B) (s : Db)
      → OkHolds Q (m s).0
      → ((a : A) → Q a → OkHolds P (f a (m s).1).0)
      → OkHolds P ((m >>= f) s).0
  chain-OkHolds Q m f s h k = after-OkHolds Q (m s).0 f (m s).1 h k

module _ {A : Type 0} {P : A → Type 0} where
  pub attempt-OkHolds :
      (m : M A) (h : Error → M A) (s : Db)
      → OkHolds P (m s).0
      → ((e : Error) → Returns P (h e))
      → OkHolds P (attempt m h s).0
  attempt-OkHolds m h s hm hh = recover-OkHolds (m s).0 h hm hh (m s).1
