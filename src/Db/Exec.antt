-- ===== src/Db/Exec.antt =====
-- Asynchronous code that runs statements and may throw. What a statement wrote before a throw
-- stays written: there is no transaction here.
use real_estate_multi_tenant.Errors.{Error}
use real_estate_multi_tenant.Db.Rows.{Db}

pub data Result {ℓ} (A : Type ℓ) : Type ℓ where
  ok : A → Result A
  err : Error → Result A

abbrev pub M : Type 0 → Type 0
M A = Db → Result A × Db

module _ {A : Type 0} where
  abbrev pub pure : A → M A
  pure a s = (ok a, s)

  abbrev pub raise : Error → M A
  raise e s = (err e, s)

  abbrev pub lift : Result A → M A
  lift r s = (r, s)

  abbrev pub recover : Result A → (Error → M A) → M A
  recover (ok a) h s = (ok a, s)
  recover (err e) h s = h e s

  -- `try { m } catch (e) { h(e) }`
  abbrev pub attempt : M A → (Error → M A) → M A
  attempt m h s = let (r, s') = m s in recover r h s'

module _ {A B : Type 0} where
  abbrev pub continue : Result A → (A → M B) → M B
  continue (ok a) f s = f a s
  continue (err e) f s = (err e, s)

  infixl 10 ◌>>=◌ ◌>>◌
  abbrev pub ◌>>=◌ : M A → (A → M B) → M B
  ◌>>=◌ m f s = let (r, s') = m s in continue r f s'

  abbrev pub ◌>>◌ : M A → M B → M B
  m >> n = m >>= λ _. n
