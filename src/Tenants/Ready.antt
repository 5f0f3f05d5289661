-- ===== src/Tenants/Ready.antt =====
-- The statements of `createTenant` where none of them fails.
use real_estate_multi_tenant.Prelude.{
  ℕ, suc, ◌≡◌, refl, ap, ◌∙◌, String, Bool, true, false, List, [], ◌∷◌, ◌++◌, none, any, filter,
  head?, inl, inr, Bool-cases, arith,
}
use real_estate_multi_tenant.Db.{TenantRow, Table, Db, tenants, set_rows}
use real_estate_multi_tenant.Db.Healthy.{Healthy, select-eq, insert-eq, update-eq}
use real_estate_multi_tenant.Db.Ends.{Ends}
use real_estate_multi_tenant.Schemas.Slots.{Fails, tables_of, bare}
use real_estate_multi_tenant.Tenants.Repository
use real_estate_multi_tenant.Tenants.Repository.{
  TenantData, Change, schema, has_schema_name, is_subscription, fits_lengths, accepts,
  still_accepts, new_row, has_id, set_change,
}

-- No statement fails, the registry is `X`, and the schema has no tables yet.
pub record At (name : String) (X : Table TenantRow) (s : Db) : Type 0 where
  pub healthy : Healthy s
  pub registry : s.tenants ≡ X
  pub clear : tables_of name s ≡ bare

any-filter :
    {A : Type 0} (p : A → Bool) (xs : List A) → any p xs ≡ false → head? (filter p xs) ≡ none
unfolding any filter
any-filter p [] e = refl
any-filter p (x ∷ xs) e = elim (Bool-cases (p x)) [
  | inl hit ↦ ground arith
  | inr miss ↦ rw miss (any-filter p xs (ground arith))
]

module _ (name : String) (X : Table TenantRow) (s : Db) (at : At name X s) where
  pub find-At :
      (temp : String)
      → any (has_schema_name temp) X.rows ≡ false
      → Ends (λ t s'. (t ≡ none) × At name X s') Fails (Repository.find_by_schema_name temp s)
  unfolding Repository.find_by_schema_name
  find-At temp free =
      rw
        (select-eq tenants "public" s s.tenants (at.healthy s.statements) refl
          (has_schema_name temp))
        (
          ap (λ (T : Table TenantRow). head? (filter (has_schema_name temp) T.rows)) at.registry
              ∙ any-filter (has_schema_name temp) X.rows free,
          record { healthy = at.healthy; registry = at.registry; clear = at.clear },
        )

  pub insert-At :
      (input : TenantData)
      → any (has_schema_name input.schema_name) X.rows ≡ false
      → is_subscription input.subscription_type ≡ true
      → ((id now : ℕ) → fits_lengths (new_row input id now) ≡ true)
      → Ends
          (λ row s'.
            (now : ℕ) × (row ≡ new_row input X.next now)
            × At name
                (record { rows = X.rows ++ new_row input X.next now ∷ []; next = suc X.next })
                s')
          Fails
          (Repository.create input s)
  unfolding Repository.create accepts
  insert-At input free known short =
      let now = s.time (suc s.statements) in
      rw
        (insert-eq tenants "public" s s.tenants (at.healthy s.statements) refl accepts
          (new_row input) (rw (at.registry, free, known, short X.next now) refl))
        (
          now,
          ap (λ (T : Table TenantRow). new_row input T.next now) at.registry,
          record {
            healthy = at.healthy;
            registry =
                ap
                  (λ (T : Table TenantRow). record {
                    rows = T.rows ++ new_row input T.next now ∷ [];
                    next = suc T.next;
                  })
                  at.registry;
            clear = at.clear;
          },
        )

  pub update-At :
      (id : ℕ) (c : Change)
      → ((now : ℕ) → still_accepts (set_rows (has_id id) (set_change c now) X.rows) ≡ true)
      → Ends
          (λ rows s'.
            (now : ℕ) × At name
              (record X { rows = set_rows (has_id id) (set_change c now) X.rows })
              s')
          Fails
          (Repository.update id c s)
  unfolding Repository.update
  update-At id c fits =
      let now = s.time (suc s.statements) in
      rw
        (update-eq tenants "public" s s.tenants (at.healthy s.statements) refl (has_id id)
          still_accepts (set_change c) (rw at.registry (fits now)))
        (
          now,
          record {
            healthy = at.healthy;
            registry =
                ap
                  (λ (T : Table TenantRow). record T {
                    rows = set_rows (has_id id) (set_change c now) T.rows;
                  })
                  at.registry;
            clear = at.clear;
          },
        )
