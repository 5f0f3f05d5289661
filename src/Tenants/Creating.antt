-- ===== src/Tenants/Creating.antt =====
-- The creation of a tenant keeps to a preorder on states if the writes of the registry, the steps
-- that make a schema, and the undoing of a transaction do.
use real_estate_multi_tenant.Prelude.{ℕ, String, List, Option, none, some}
use real_estate_multi_tenant.Errors.{Error}
use real_estate_multi_tenant.Db.{
  TenantRow, Db, Result, ok, err, raise, lift, ◌>>=◌, tenants, users, run, insert_into,
  update_where,
}
use real_estate_multi_tenant.Db.Respects.{
  Preorder, Respects, R-bind, R-attempt, Respects-run, Respects-bind, Respects-pure, Respects-raise,
  Respects-attempt, Respects-lift, respects_rules,
}
use real_estate_multi_tenant.Db.Transaction.{begin, settle, commit, rollback, rolled_back, finished}
use real_estate_multi_tenant.Schemas.Migrations.{Migration}
use real_estate_multi_tenant.Schemas.Actions.{
  SchemaWrites, create_schema-Respects, migration-Respects,
}
use real_estate_multi_tenant.Users.Repository.{accepts}
use real_estate_multi_tenant.Tenants.Dto.{CreateTenantDto, AdminData, tenant_response}
use real_estate_multi_tenant.Tenants.Repository
use real_estate_multi_tenant.Tenants.Repository.{
  TenantData, Change, fields, schema, active, has_id, new_row, set_change, still_accepts,
}
use real_estate_multi_tenant.Tenants.Service
use real_estate_multi_tenant.Tenants.Service.{
  admin_row, refuse_taken, tenant_data, temp_schema_name, creation_error, create_admin_user,
  create_in_transaction, abort, publish, finish, conclude, transact, read_again,
}
use real_estate_multi_tenant.Tenants.Actions.{RouteWrites}

pub record TenantWrites (R : Db → Db → Type 0) : Type 0 where
  pub inserting :
      (input : TenantData)
      → Respects R (insert_into tenants "public" Repository.accepts (new_row input))
  pub changing :
      (id : ℕ) (c : Change)
      → Respects R (update_where tenants "public" (has_id id) still_accepts (set_change c))
  pub adding_admin :
      (name hashed : String) (admin : AdminData)
      → Respects R (insert_into users name (accepts name) (admin_row admin hashed))
  pub making : SchemaWrites R
  pub undoing : (s0 s : Db) → R s0 s → R s0 (rolled_back s0 s)

module _ {R : Db → Db → Type 0} (P : Preorder R) (W : TenantWrites R)
    (pending : String → Db → Result (List Migration)) (hash : ℕ → String → String) where
  statement-Respects : Respects R (run (λ s. (some tt, s)))
  statement-Respects = Respects-run P (λ s. (some tt, s)) P.refl

  find_by_id-Respects : (id : ℕ) → Respects R (Repository.find_by_id id)
  unfolding Repository.find_by_id
  find_by_id-Respects id = search (P, respects_rules)

  find_by_schema_name-Respects : (name : String) → Respects R (Repository.find_by_schema_name name)
  unfolding Repository.find_by_schema_name
  find_by_schema_name-Respects name = search (P, respects_rules)

  create-Respects : (input : TenantData) → Respects R (Repository.create input)
  unfolding Repository.create
  create-Respects input = W.inserting input

  update-Respects : (id : ℕ) (c : Change) → Respects R (Repository.update id c)
  unfolding Repository.update
  update-Respects id c = W.changing id c

  refuse_taken-Respects : (existing : Option TenantRow) → Respects R (refuse_taken existing)
  refuse_taken-Respects none = search (P, respects_rules)
  refuse_taken-Respects (some t) = search (P, respects_rules)

  create_admin_user-Respects :
      (name : String) (admin : AdminData) → Respects R (create_admin_user pending hash name admin)
  unfolding create_admin_user
  create_admin_user-Respects name admin = record {
    at = λ s.
        (Respects-attempt P _ _
            (Respects-bind P _ _ (W.adding_admin name (hash s.statements admin.password) admin)
              (λ row. Respects-pure P tt))
            (λ e. Respects-raise P _)).at
          s;
  }

  create_in_transaction-Respects :
      (dto : CreateTenantDto) → Respects R (create_in_transaction pending hash dto)
  unfolding create_in_transaction
  create_in_transaction-Respects dto = record {
    at = λ s.
        (Respects-bind P _ _ (find_by_schema_name-Respects _) λ existing.
            Respects-bind P _ _ (refuse_taken-Respects existing) λ _.
              Respects-bind P _ _ (create-Respects _) λ tenant.
                Respects-bind P _ _ (update-Respects tenant.id _) λ rows.
                  Respects-bind P _ _ (create_schema-Respects P W.making _) λ _.
                    Respects-bind P _ _ (migration-Respects P W.making pending _) λ _.
                      Respects-bind P _ _ (create_admin_user-Respects _ _)
                        λ _. Respects-pure P tenant.id).at
          s;
  }

  settle-R : (s0 : Db) (r : Result (Unit {0})) (s : Db) → R s0 s → R s0 (settle s0 r s).1
  settle-R s0 (ok done) s h = h
  settle-R s0 (err e) s h = W.undoing s0 s h

  commit-R : (s0 s : Db) → R s0 s → R s0 (commit s0 s).1
  unfolding commit
  commit-R s0 s h =
      settle-R s0 (run (λ s'. (some tt, s')) s).0 (run (λ s'. (some tt, s')) s).1
        (P.trans s0 _ _ h (statement-Respects.at s))

  publish-R : (s0 s : Db) (id : ℕ) → R s0 s → R s0 (publish pending hash s0 id s).1
  publish-R s0 s id h =
      R-bind P s0 s (commit s0)
        (λ _. Repository.find_by_id id >>= (λ created. lift (tenant_response created)))
        (commit-R s0 s h)
        (λ _. Respects-bind P _ _ (find_by_id-Respects id) (λ created. Respects-lift P _))

  finish-R : (s0 s : Db) (id : ℕ) → R s0 s → R s0 (finish pending hash s0 id s).1
  finish-R s0 s id h =
      R-attempt P s0 s (publish pending hash s0 id) (λ e. raise finished) (publish-R s0 s id h)
        (λ e. Respects-raise P finished)

  abort-R : (s0 s : Db) (e : Error) → R s0 s → R s0 (abort pending hash s0 e s).1
  unfolding rollback
  abort-R s0 s e h =
      R-bind P s0 s (rollback s0) (λ _. raise (creation_error e))
        (W.undoing s0 _ (P.trans s0 _ _ h (statement-Respects.at s)))
        (λ _. Respects-raise P (creation_error e))

  conclude-R : (s0 s : Db) (r : Result ℕ) → R s0 s → R s0 (conclude pending hash s0 r s).1
  conclude-R s0 s (ok id) h = finish-R s0 s id h
  conclude-R s0 s (err e) h = abort-R s0 s e h

  create_tenant-Respects :
      (dto : CreateTenantDto) → Respects R (Service.create_tenant pending hash dto)
  unfolding Service.create_tenant begin
  create_tenant-Respects dto = Respects-bind P _ _ statement-Respects λ _. record {
    at = λ s.
        conclude-R s _ (create_in_transaction pending hash dto s).0
          ((create_in_transaction-Respects dto).at s);
  }

  pub TenantWrites-RouteWrites : RouteWrites pending hash R
  TenantWrites-RouteWrites = record {
    setting = λ id dto. W.changing id (fields dto);
    switching = λ id b. W.changing id (active b);
    creating = create_tenant-Respects;
  }
