-- ===== src/Db/Ends.antt =====
-- How an action ends from one state: what holds of the value and the state where it returns, and of
-- the state where it throws.
use real_estate_multi_tenant.Errors.{Error}
use real_estate_multi_tenant.Db.Rows.{Db}
use real_estate_multi_tenant.Db.Exec.{Result, ok, err, M, continue, ◌>>=◌, recover, attempt}
use real_estate_multi_tenant.Db.Respects.{Respects}

abbrev pub Ends : {A : Type 0} → (A → Db → Type 0) → (Db → Type 0) → Result A × Db → Type 0
Ends Q E (ok a, s) = Q a s
Ends Q E (err e, s) = E s

module _ {A : Type 0} (Q : A → Db → Type 0) (E : Db → Type 0) where
  pub Ends-same : (r : Result A) (s : Db) → ((a : A) → Q a s) → E s → Ends Q E (r, s)
  Ends-same (ok a) s q e = q a
  Ends-same (err x) s q e = e

module _ {A B : Type 0} (Q : A → Db → Type 0) (Q' : B → Db → Type 0) (E : Db → Type 0) where
  continue-Ends :
      (r : Result A) (f : A → M B) (s : Db)
      → Ends Q E (r, s)
      → ((a : A) → Q a s → Ends Q' E (f a s))
      → Ends Q' E (continue r f s)
  continue-Ends (ok a) f s h k = k a h
  continue-Ends (err e) f s h k = h

  pub Ends-bind :
      (m : M A) (f : A → M B) (s : Db)
      → Ends Q E (m s)
      → ((a : A) (s' : Db) → Q a s' → Ends Q' E (f a s'))
      → Ends Q' E ((m >>= f) s)
  Ends-bind m f s h k = continue-Ends (m s).0 f (m s).1 h (λ a q. k a (m s).1 q)

module _ {A : Type 0} (Q : A → Db → Type 0) (E E' : Db → Type 0) where
  recover-Ends :
      (r : Result A) (h : Error → M A) (s : Db)
      → Ends Q E (r, s)
      → ((e : Error) → E s → Ends Q E' (h e s))
      → Ends Q E' (recover r h s)
  recover-Ends (ok a) h s q k = q
  recover-Ends (err e) h s q k = k e q

  pub Ends-attempt :
      (m : M A) (h : Error → M A) (s : Db)
      → Ends Q E (m s)
      → ((e : Error) (s' : Db) → E s' → Ends Q E' (h e s'))
      → Ends Q E' (attempt m h s)
  Ends-attempt m h s q k = recover-Ends (m s).0 h (m s).1 q (λ e x. k e (m s).1 x)

module _ {A : Type 0} (Q Q' : A → Db → Type 0) (E E' : Db → Type 0) where
  pub Ends-map :
      (x : Result A × Db)
      → Ends Q E x
      → ((a : A) (s : Db) → Q a s → Q' a s)
      → ((s : Db) → E s → E' s)
      → Ends Q' E' x
  Ends-map (ok a, s) h q e = q a s h
  Ends-map (err x, s) h q e = e s h

-- An action that respects a preorder ends in a later state, however it ends.
pub Respects-Ends :
    {R : Db → Db → Type 0} {A : Type 0} (m : M A) (s : Db)
    → Respects R m
    → Ends (λ a s'. R s s') (R s) (m s)
Respects-Ends m s h = Ends-same (λ a s'. _) _ (m s).0 (m s).1 (λ a. h.at s) (h.at s)

-- What is shown of one end in two ways holds together.
pub Ends-both :
    {A : Type 0} (Q Q' : A → Db → Type 0) (E E' : Db → Type 0) (x : Result A × Db)
    → Ends Q E x
    → Ends Q' E' x
    → Ends (λ a s. Q a s × Q' a s) (λ s. E s × E' s) x
Ends-both Q Q' E E' (ok a, s) h h' = (h, h')
Ends-both Q Q' E E' (err e, s) h h' = (h, h')
