-- ===== src/Users/SignIn.antt =====
-- Logins and the renewal of a token write nothing: they keep to every preorder on states.
use real_estate_multi_tenant.Prelude.{ℕ, String, Bool, List, [], ◌∷◌, Option, none, some}
use real_estate_multi_tenant.Db.{UserRow, TenantRow, Db, M}
use real_estate_multi_tenant.Db.Respects.{
  Preorder, Respects, Respects-bind, Respects-pure, respects_rules,
}
use real_estate_multi_tenant.Access.Request.{Payload, Verified, Request, AuthUser}
use real_estate_multi_tenant.Access.Auth.{authenticate_token}
use real_estate_multi_tenant.Access.Pipeline.{validate}
use real_estate_multi_tenant.Access.Isolation.{select_tenants-Respects}
use real_estate_multi_tenant.Access.Scoped.{
  Keeps, Contained, Contained-respond, Keeps-after, Keeps-plain,
}
use real_estate_multi_tenant.Users.Dto.{LoginDto}
use real_estate_multi_tenant.Users.Repository
use real_estate_multi_tenant.Users.Repository.{Found, found_in, search_tenants}
use real_estate_multi_tenant.Users.Service
use real_estate_multi_tenant.Users.Service.{check_super, check_found, renew}
use real_estate_multi_tenant.Users.Controller
use real_estate_multi_tenant.Users.Routes.{super_admin_login, tenant_user_login, refresh_token}

module _ {R : Db → Db → Type 0} (P : Preorder R) where
  find_by_email-Respects :
      (email schema : String) → Respects R (Repository.find_by_email email schema)
  unfolding Repository.find_by_email
  find_by_email-Respects email schema = search (P, respects_rules)

  find_by_id-Respects : (id : ℕ) (schema : String) → Respects R (Repository.find_by_id id schema)
  unfolding Repository.find_by_id
  find_by_id-Respects id schema = search (P, respects_rules)

  found_in-Respects :
      (t : TenantRow) (user : Option UserRow) (rest : M (Option Found))
      → Respects R rest
      → Respects R (found_in t user rest)
  found_in-Respects t none rest h = h
  found_in-Respects t (some u) rest h = Respects-pure P _

  search_tenants-Respects :
      (email : String) (ts : List TenantRow) → Respects R (search_tenants email ts)
  unfolding search_tenants
  search_tenants-Respects email [] = Respects-pure P none
  search_tenants-Respects email (t ∷ rest) =
      Respects-bind P _ _ (find_by_email-Respects email t.schema_name)
        λ user. found_in-Respects t user _ (search_tenants-Respects email rest)

  across-Respects : (email : String) → Respects R (Repository.find_by_email_across_tenants email)
  unfolding Repository.find_by_email_across_tenants
  across-Respects email =
      search (P, respects_rules, select_tenants-Respects, search_tenants-Respects)

  module _ (compare : String → String → Bool) (sign : Payload → String) where
    check_super-Respects :
        (dto : LoginDto) (user : Option UserRow) → Respects R (check_super compare sign dto user)
    check_super-Respects dto none = search (P, respects_rules)
    check_super-Respects dto (some u) = search (P, respects_rules)

    check_found-Respects :
        (dto : LoginDto) (f : Option Found) → Respects R (check_found compare sign dto f)
    check_found-Respects dto none = search (P, respects_rules)
    check_found-Respects dto (some f) = search (P, respects_rules)

    renew-Respects : (schema : String) (user : Option UserRow) → Respects R (renew sign schema user)
    renew-Respects schema none = search (P, respects_rules)
    renew-Respects schema (some u) = search (P, respects_rules)

    super_admin-Contained :
        (dto : LoginDto) → Contained R (Controller.super_admin_login compare sign dto)
    unfolding Controller.super_admin_login Service.super_admin_login
    super_admin-Contained dto =
        search (P, respects_rules, Contained-respond, find_by_email-Respects, check_super-Respects)

    tenant_user-Contained :
        (dto : LoginDto) → Contained R (Controller.tenant_user_login compare sign dto)
    unfolding Controller.tenant_user_login Service.tenant_user_login
    tenant_user-Contained dto =
        search (P, respects_rules, Contained-respond, across-Respects, check_found-Respects)

    refresh-Contained : (user : AuthUser) → Contained R (Controller.refresh_token sign user)
    unfolding Controller.refresh_token Service.refresh_token
    refresh-Contained user =
        search (P, respects_rules, Contained-respond, find_by_id-Respects, renew-Respects)

    pub super_admin_login-Keeps :
        (passes : Bool) (dto : LoginDto) → Keeps R (super_admin_login compare sign passes dto)
    unfolding super_admin_login
    super_admin_login-Keeps passes dto =
        Keeps-after P (validate passes) _ λ _. Keeps-plain P _ (super_admin-Contained dto)

    pub tenant_user_login-Keeps :
        (passes : Bool) (dto : LoginDto) → Keeps R (tenant_user_login compare sign passes dto)
    unfolding tenant_user_login
    tenant_user_login-Keeps passes dto =
        Keeps-after P (validate passes) _ λ _. Keeps-plain P _ (tenant_user-Contained dto)

    pub refresh_token-Keeps :
        (verify : String → Verified) (req : Request) → Keeps R (refresh_token sign verify req)
    unfolding refresh_token
    refresh_token-Keeps verify req =
        Keeps-after P (authenticate_token verify req) _
          λ user. Keeps-plain P _ (refresh-Contained user)
