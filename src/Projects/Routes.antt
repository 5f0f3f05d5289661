-- ===== src/Projects/Routes.antt =====
-- src/modules/projects/project.routes.js: `passes` is the answer of the validation schema of the
-- route.
use real_estate_multi_tenant.Prelude.{ℕ, ℤ, String, Bool, true, List, Option}
use real_estate_multi_tenant.Db.{ProjectRow}
use real_estate_multi_tenant.Access.Roles.{Action}
use real_estate_multi_tenant.Access.Roles
use real_estate_multi_tenant.Access.Request.{Verified, Request, AuthUser, Scope}
use real_estate_multi_tenant.Access.Pipeline.{
  Handler, scoped, admin_route, member_route, audited, plain, with_body,
}
use real_estate_multi_tenant.Projects.Dto.{CreateProjectBody, UpdateProjectDto}
use real_estate_multi_tenant.Projects.Repository.{ProjectFilter}
use real_estate_multi_tenant.Projects.Service.{ProjectPage}
use real_estate_multi_tenant.Projects.Controller

pub data ProjectCall : Type 0 where
  create_call : CreateProjectBody → ProjectCall
  list_call : ProjectFilter → Option ℤ → Option ℤ → ProjectCall
  get_call : ℕ → ProjectCall
  update_call : ℕ → UpdateProjectDto → ProjectCall
  delete_call : ℕ → ProjectCall

-- The data of a reply: a project, or a page of the listing.
pub data ProjectBody : Type 0 where
  one : ProjectRow → ProjectBody
  many : ProjectPage → ProjectBody

module _ (order : List ProjectRow → List ProjectRow) (req : Request) (passes : Bool) where
  -- The listing has no validation, which stands here as one that passes.
  unfoldable pub project_route : ProjectCall → AuthUser → Scope → Handler ProjectBody
  project_route (create_call body) user scope =
      admin_route passes Roles.projects Roles.create user (
        with_body one (
          audited "project" "CREATE" req user scope
            (Controller.create_project body scope.tenant_id scope.tenant_schema)))
  project_route (list_call filter page limit) user scope =
      member_route true Roles.projects Roles.read user (
        with_body many
          (plain (Controller.get_all_projects order scope.tenant_schema filter page limit)))
  project_route (get_call id) user scope =
      member_route passes Roles.projects Roles.read user
        (with_body one (plain (Controller.get_project_by_id id scope.tenant_schema)))
  project_route (update_call id dto) user scope =
      admin_route passes Roles.projects Roles.update user (
        with_body one (
          audited "project" "UPDATE" req user scope
            (Controller.update_project id dto scope.tenant_schema)))
  project_route (delete_call id) user scope = admin_route passes Roles.projects Roles.delete user (
      with_body one (
        audited "project" "DELETE" req user scope
          (Controller.delete_project id scope.tenant_schema)))

  -- The router of the projects: every route stands behind authentication and the tenant resolver.
  unfoldable pub projects_handle : (String → Verified) → ProjectCall → Handler ProjectBody
  projects_handle verify call = scoped verify req (project_route call)
