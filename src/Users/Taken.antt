-- ===== src/Users/Taken.antt =====
-- An email that a user of the schema has, in a creation and in a change of another user.
use real_estate_multi_tenant.Prelude.{
  ℕ, zero, suc, ◌≡◌, ◌≢◌, refl, sym, ap, ◌∙◌, String, Bool, true, List, [], ◌∷◌, Option, none, some,
  ◌&&◌, head?, is_some, filter, inl, inr, Bool-cases, arith, eq_iff, str_eq-differs,
}
use real_estate_multi_tenant.Errors.{conflict}
use real_estate_multi_tenant.Db.{UserRow, Table, Db, err, ok, users}
use real_estate_multi_tenant.Db.Healthy.{Healthy, tick, select-eq}
use real_estate_multi_tenant.Access.Auth.{truthy_id}
use real_estate_multi_tenant.Users.Dto.{CreateUserDto, UpdateUserDto}
use real_estate_multi_tenant.Users.Repository
use real_estate_multi_tenant.Users.Repository.{has_id, has_email, differs_from}
use real_estate_multi_tenant.Users.Service.{create_user, update_user, found, new_email}
use real_estate_multi_tenant.Users.Login.{In}

In-found :
    (p : UserRow → Bool) (u : UserRow) (rows : List UserRow)
    → In u rows
    → p u ≡ true
    → is_some (head? (filter p rows)) ≡ true
unfolding filter
In-found p u [] m e = absurd m
In-found p u (x ∷ xs) m e = elim (Bool-cases (p x)) [
  | inl hit ↦ rw hit refl
  | inr miss ↦ elim m [
    | inl same ↦ absurd (ground (arith, sym (ap p same ∙ e) ∙ miss))
    | inr later ↦ rw miss (In-found p u xs later e)
  ]
]

differs : (id : ℕ) (u : UserRow) → u.id ≢ id → differs_from (truthy_id (some id)) u ≡ true
differs zero u n = refl
differs (suc id) u n = ground (arith, n)

module _ (schema : String) (s : Db) (t : Table UserRow) (up : Healthy s)
    (has : s.users schema ≡ some t) (u : UserRow) (member : In u t.rows) where
  exists-eq :
      (exclude : Option ℕ)
      → differs_from (truthy_id exclude) u ≡ true
      → Repository.email_exists u.email schema exclude s ≡ (ok true, tick s)
  unfolding Repository.email_exists has_email
  exists-eq exclude other =
      let p = λ (v : UserRow). has_email u.email v && differs_from (truthy_id exclude) v in
      let fits : p u ≡ true = rw ((eq_iff u.email u.email).1 refl, other) refl in
      rw (select-eq users schema s t (up _) has p, In-found p u t.rows member fits) refl

  find-eq :
      (id : ℕ)
      → Repository.find_by_id id schema s ≡ (ok (head? (filter (has_id id) t.rows)), tick s)
  unfolding Repository.find_by_id
  find-eq id = rw (select-eq users schema s t (up _) has (has_id id)) refl

  new_email-eq :
      (existing : UserRow)
      → u.email ≢ ""
      → existing.email ≢ u.email
      → new_email (some u.email) existing ≡ some u.email
  new_email-eq existing named other =
      rw
        (
          str_eq-differs u.email existing.email (λ e. other (sym e)),
          str_eq-differs u.email "" named,
        )
        refl

module _ (hash : ℕ → String → String) (schema : String) (s : Db) (t : Table UserRow)
    (up : Healthy s) (has : s.users schema ≡ some t) (u : UserRow) (member : In u t.rows) where
  create-conflict :
      (dto : CreateUserDto)
      → dto.email ≡ u.email
      → create_user hash dto schema s ≡ (err (conflict "Email already exists"), tick s)
  unfolding create_user
  create-conflict dto e = rw (e, exists-eq schema s t up has u member none refl) refl

  update-conflict :
      (id : ℕ) (change : UpdateUserDto) (existing : UserRow)
      → head? (filter (has_id id) t.rows) ≡ some existing
      → change.email ≡ some u.email
      → u.email ≢ ""
      → u.id ≢ id
      → existing.email ≢ u.email
      → update_user hash id change schema s ≡ (err (conflict "Email already exists"), tick (tick s))
  unfolding update_user found
  update-conflict id change existing first e named apart other =
      rw
        (
          find-eq schema s t up has u member id,
          first,
          e,
          new_email-eq schema s t up has u member existing named other,
          exists-eq schema (tick s) t up has u member (some id) (differs id u apart),
        )
        refl

  -- Where no statement fails, an email that a user of the schema has is refused with Conflict, and
  -- nothing is written: in the creation of a user, and in the change of another user who has a different
  -- one, unless it is empty.
  pub update_user-conflict :
      (dto : CreateUserDto) (id : ℕ) (change : UpdateUserDto) (existing : UserRow)
      → dto.email ≡ u.email
      → head? (filter (has_id id) t.rows) ≡ some existing
      → change.email ≡ some u.email
      → u.email ≢ ""
      → u.id ≢ id
      → existing.email ≢ u.email
      → (create_user hash dto schema s ≡ (err (conflict "Email already exists"), tick s))
        × (update_user hash id change schema s
            ≡ (err (conflict "Email already exists"), tick (tick s)))
  update_user-conflict dto id change existing same first e named apart other =
      (create-conflict dto same, update-conflict id change existing first e named apart other)
