-- ===== src/Access/SuperAdmin.antt =====
-- The routes for Super Admins: `authenticateToken, requireSuperAdmin, usePublicSchema`.
use real_estate_multi_tenant.Prelude.{
  String, ◌≡◌, refl, ap, Option, none, some, str_eq, eq_iff, inl, inr, Bool-cases,
}
use real_estate_multi_tenant.Db.{Db}
use real_estate_multi_tenant.Access.Roles.{super_admin, is_super_admin}
use real_estate_multi_tenant.Access.Request.{
  Verified, valid, json_web_token_error, token_expired_error, other_error, Request, AuthUser, Step,
  next, deny,
}
use real_estate_multi_tenant.Access.Auth.{authenticate_token, outcome, with_token, token_of}
use real_estate_multi_tenant.Access.Rbac.{require_super_admin}
use real_estate_multi_tenant.Access.Pipeline.{Handler, public_scoped}
use real_estate_multi_tenant.Access.Guard.{
  Refuses, Denies, Refused, Refused-known, Refused-deny, with_role-Denies,
}

-- The request is authenticated as a Super Admin.
abbrev pub AsSuperAdmin : Step AuthUser → Type 0
AsSuperAdmin (next user) = user.role ≡ some super_admin
AsSuperAdmin (deny status text) = ⊥

outcome-Refuses : (v : Verified) → Refuses (outcome v)
outcome-Refuses (valid payload) = tt
outcome-Refuses json_web_token_error = inr (inl refl)
outcome-Refuses token_expired_error = inr (inl refl)
outcome-Refuses other_error = inr (inl refl)

with_token-Refuses :
    (verify : String → Verified) (token : Option String) → Refuses (with_token verify token)
with_token-Refuses verify none = inr (inl refl)
with_token-Refuses verify (some token) = outcome-Refuses (verify token)

authenticate-Refuses :
    (verify : String → Verified) (req : Request) → Refuses (authenticate_token verify req)
unfolding authenticate_token
authenticate-Refuses verify req = with_token-Refuses verify (token_of req.authorization)

module _ (user : AuthUser) where
  ordinary-Denies :
      (role : Option String)
      → user.role ≡ role
      → ¬ (role ≡ some super_admin)
      → Denies (require_super_admin (some user))
  unfolding require_super_admin is_super_admin
  ordinary-Denies none has n = rw has (inr (inl refl))
  ordinary-Denies (some role) has n = elim (Bool-cases (str_eq role super_admin)) [
    | inl same ↦ absurd (n (ap some ((eq_iff role super_admin).0 same)))
    | inr differs ↦ rw has (with_role-Denies _ role (rw differs (inr (inr refl))))
  ]

module _ {B : Type 0} (k : AuthUser → Handler B) (s : Db) where
  -- A request that is not authenticated as a Super Admin is refused.
  pub public_scoped-Refused :
      (verify : String → Verified) (req : Request)
      → ¬ AsSuperAdmin (authenticate_token verify req)
      → Refused (public_scoped verify req k) s
  unfolding public_scoped
  public_scoped-Refused verify req n =
      Refused-known (authenticate_token verify req) _ s (authenticate-Refuses verify req) λ user e.
        Refused-deny (require_super_admin (some user)) _ s
          (ordinary-Denies user user.role refl (λ h. n (rw e h)))
