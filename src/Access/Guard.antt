-- ===== src/Access/Guard.antt =====
-- What the middleware refuses: a request that it answers itself changes no table and runs no
-- controller.
use real_estate_multi_tenant.Prelude.{
  String, ◌≡◌, refl, Bool, true, false, Option, none, some, str_eq, ◌⊎◌, inl, inr, Bool-cases,
  if◌then◌else◌,
}
use real_estate_multi_tenant.Db.{Db}
use real_estate_multi_tenant.Http.{Reply, success, failure}
use real_estate_multi_tenant.Access.Roles.{Resource, Action, has_permission}
use real_estate_multi_tenant.Access.Request.{
  Verified, valid, json_web_token_error, token_expired_error, other_error, Request, AuthUser, Scope,
  Step, next, deny,
}
use real_estate_multi_tenant.Access.Auth.{
  authenticate_token, optional_auth, outcome, optional, with_token, optional_token, token_of,
  truthy,
}
use real_estate_multi_tenant.Access.Rbac.{check_permission, require_admin, with_role}
use real_estate_multi_tenant.Access.Pipeline.{
  Handler, after, with_data, validate, admin_route, member_route, with_body, scoped,
}
use real_estate_multi_tenant.Access.Permissions.{Granted, has_permission_iff}

-- The statuses that the middleware answers with.
abbrev pub IsRefusal : {B : Type 0} → Reply B → Type 0
IsRefusal (success c m body) = ⊥
IsRefusal (failure c m) = (c ≡ 400) ⊎ (c ≡ 401) ⊎ (c ≡ 403)

-- The reply is a refusal, and the state is what it was.
pub record Refused {B : Type 0} (h : Handler B) (s : Db) : Type 0 where
  pub reply : IsRefusal (h s).0
  pub unchanged : (h s).1 ≡ s

abbrev pub Refuses : {A : Type 0} → Step A → Type 0
Refuses (next a) = Unit
Refuses (deny status text) = (status ≡ 400) ⊎ (status ≡ 401) ⊎ (status ≡ 403)

abbrev pub Denies : {A : Type 0} → Step A → Type 0
Denies (next a) = ⊥
Denies (deny status text) = (status ≡ 400) ⊎ (status ≡ 401) ⊎ (status ≡ 403)

module _ {A B : Type 0} where
  Refused-after :
      (step : Step A) (k : A → Handler B) (s : Db)
      → Refuses step
      → ((a : A) → Refused (k a) s)
      → Refused (after step k) s
  Refused-after (next a) k s h r = record { reply = (r a).reply; unchanged = (r a).unchanged }
  Refused-after (deny status text) k s h r = record { reply = h; unchanged = refl }

  -- The same with the step known.
  pub Refused-known :
      (step : Step A) (k : A → Handler B) (s : Db)
      → Refuses step
      → ((a : A) → step ≡ next a → Refused (k a) s)
      → Refused (after step k) s
  Refused-known (next a) k s h r = record {
    reply = (r a refl).reply;
    unchanged = (r a refl).unchanged;
  }
  Refused-known (deny status text) k s h r = record { reply = h; unchanged = refl }

  pub Refused-deny :
      (step : Step A) (k : A → Handler B) (s : Db) → Denies step → Refused (after step k) s
  Refused-deny (next a) k s h = absurd h
  Refused-deny (deny status text) k s h = record { reply = h; unchanged = refl }

  IsRefusal-with_data : (f : A → B) (r : Reply A) → IsRefusal r → IsRefusal (with_data f r)
  IsRefusal-with_data f (success c m body) h = h
  IsRefusal-with_data f (failure c m) h = h

  pub Refused-with_body :
      (f : A → B) (h : Handler A) (s : Db) → Refused h s → Refused (with_body f h) s
  Refused-with_body f h s r = record {
    reply = IsRefusal-with_data f (h s).0 r.reply;
    unchanged = r.unchanged;
  }

validate-Refuses : (passes : Bool) → Refuses (validate passes)
unfolding validate
validate-Refuses true = tt
validate-Refuses false = inl refl

module _ (f : String → Step (Unit {0})) where
  with_role-Refuses :
      (role : Option String) → ((name : String) → Refuses (f name)) → Refuses (with_role role f)
  with_role-Refuses none h = inr (inl refl)
  with_role-Refuses (some name) h = h name

  -- An empty role is no role.
  pub with_role-Denies :
      (role : String) → Denies (f role) → Denies (with_role (truthy (some role)) f)
  with_role-Denies role h = elim (Bool-cases (str_eq role "")) [
    | inl e ↦ rw e (inr (inl refl))
    | inr e ↦ rw e h
  ]

if-Refuses : (b : Bool) (text : String) → Refuses (if b then next (tt {0}) else deny 403 text)
if-Refuses true text = tt
if-Refuses false text = inr (inr refl)

require_admin-Refuses : (user : AuthUser) → Refuses (require_admin (some user))
unfolding require_admin
require_admin-Refuses user = with_role-Refuses _ (truthy user.role) λ name. if-Refuses _ _

module _ (user : AuthUser) (role : String) (has : user.role ≡ some role) where
  check_permission-Denies :
      (resource : Resource) (action : Action)
      → has_permission role resource action ≡ false
      → Denies (check_permission resource action (some user))
  unfolding check_permission
  check_permission-Denies resource action e =
      rw has (with_role-Denies _ role (rw e (inr (inr refl))))

  -- Without the permission, a route runs no controller.
  module _ {B : Type 0} (passes : Bool) (resource : Resource) (action : Action) (k : Handler B)
      (s : Db) (lacks : has_permission role resource action ≡ false) where
    pub member_route-Refused : Refused (member_route passes resource action user k) s
    unfolding member_route
    member_route-Refused =
        Refused-after (validate passes) _ s (validate-Refuses passes)
          λ _. Refused-deny _ _ s (check_permission-Denies resource action lacks)

    pub admin_route-Refused : Refused (admin_route passes resource action user k) s
    unfolding admin_route
    admin_route-Refused =
        Refused-after (require_admin (some user)) _ s (require_admin-Refuses user) λ _.
          Refused-after (validate passes) _ s (validate-Refuses passes)
            λ _. Refused-deny _ _ s (check_permission-Denies resource action lacks)

pub lacks_permission :
    (role : String) (resource : Resource) (action : Action)
    → ¬ Granted role resource action
    → has_permission role resource action ≡ false
lacks_permission role resource action n = elim (Bool-cases (has_permission role resource action)) [
  | inl e ↦ absurd (n ((has_permission_iff role resource action).0 e))
  | inr e ↦ e
]

-- A request with no verified token is answered with 401.
outcome-Denies : (v : Verified) → optional v ≡ none → Denies (outcome v)
outcome-Denies (valid payload) h = cc
outcome-Denies json_web_token_error h = inr (inl refl)
outcome-Denies token_expired_error h = inr (inl refl)
outcome-Denies other_error h = inr (inl refl)

module _ (verify : String → Verified) where
  with_token-Denies :
      (token : Option String)
      → optional_token verify token ≡ none
      → Denies (with_token verify token)
  with_token-Denies none h = inr (inl refl)
  with_token-Denies (some token) h = outcome-Denies (verify token) h

  pub scoped-Refused :
      {B : Type 0} (req : Request) (k : AuthUser → Scope → Handler B) (s : Db)
      → optional_auth verify req ≡ none
      → Refused (scoped verify req k) s
  unfolding scoped authenticate_token optional_auth
  scoped-Refused req k s h = Refused-deny _ _ s (with_token-Denies (token_of req.authorization) h)
