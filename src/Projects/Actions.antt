-- ===== src/Projects/Actions.antt =====
-- Every route under /projects keeps to a preorder on states if its three writes and the audit log do.
use real_estate_multi_tenant.Prelude.{ℕ, ℤ, String, Bool, true, List, Option, none, some, head?}
use real_estate_multi_tenant.Db.{ProjectRow, Db, projects, pure, insert_into, update_where}
use real_estate_multi_tenant.Db.Respects.{
  Preorder, Respects, Respects-if, Respects-bind, Respects-pure, Respects-attempt, respects_rules,
}
use real_estate_multi_tenant.Access.Request.{Verified, Request, AuthUser, Scope}
use real_estate_multi_tenant.Access.Isolation.{Logging}
use real_estate_multi_tenant.Access.Scoped.{
  Keeps, Contained, Contained-respond, Keeps-admin_route, Keeps-member_route, Keeps-audited,
  Keeps-plain, Keeps-with_body, Keeps-scoped,
}
use real_estate_multi_tenant.Projects.Dto.{
  CreateProjectBody, CreateProjectDto, UpdateProjectDto, has_updates,
}
use real_estate_multi_tenant.Projects.Repository
use real_estate_multi_tenant.Projects.Repository.{
  ProjectFilter, has_id, accepts, new_row, set_fields, set_inactive, still_accepts, unchecked,
}
use real_estate_multi_tenant.Projects.Service
use real_estate_multi_tenant.Projects.Controller
use real_estate_multi_tenant.Projects.Routes.{
  ProjectCall, create_call, list_call, get_call, update_call, delete_call, one, many, project_route,
  projects_handle,
}

-- The statements of the repository that write, in one schema, and the write of the audit log.
pub record ProjectWrites (R : Db → Db → Type 0) (schema : String) : Type 0 where
  pub inserting :
      (dto : CreateProjectDto)
      → Respects R (insert_into projects schema (accepts dto) (new_row dto))
  pub setting :
      (id : ℕ) (dto : UpdateProjectDto)
      → Respects R (update_where projects schema (has_id id) still_accepts (set_fields dto))
  pub deleting :
      (id : ℕ) → Respects R (update_where projects schema (has_id id) unchecked set_inactive)
  pub logging : Logging R schema

module _ {R : Db → Db → Type 0} (P : Preorder R) (schema : String)
    (W : ProjectWrites R schema) where
  find_by_id-Respects : (id : ℕ) → Respects R (Repository.find_by_id id schema)
  unfolding Repository.find_by_id
  find_by_id-Respects id = search (P, respects_rules)

  create-Respects : (dto : CreateProjectDto) → Respects R (Repository.create dto schema)
  unfolding Repository.create
  create-Respects dto = W.inserting dto

  update-Respects : (id : ℕ) (dto : UpdateProjectDto) → Respects R (Repository.update id dto schema)
  unfolding Repository.update
  update-Respects id dto =
      Respects-if P (has_updates dto) _ _
        (Respects-bind P _ _ (W.setting id dto) (λ rows. Respects-pure P (head? rows)))
        (find_by_id-Respects id)

  soft_delete-Respects : (id : ℕ) → Respects R (Repository.soft_delete id schema)
  unfolding Repository.soft_delete
  soft_delete-Respects id =
      Respects-attempt P _ (λ e. pure Bool.false)
        (Respects-bind P _ _ (W.deleting id) (λ rows. Respects-pure P true))
        (λ e. Respects-pure P Bool.false)

  found-Respects : (user : Option ProjectRow) → Respects R (Service.found user)
  unfolding Service.found
  found-Respects none = search (P, respects_rules)
  found-Respects (some user) = search (P, respects_rules)

  ruleset project_rules = (
    respects_rules, find_by_id-Respects, create-Respects, update-Respects, soft_delete-Respects,
    found-Respects,
  )

  create_project-Respects :
      (dto : CreateProjectDto) → Respects R (Service.create_project dto schema)
  unfolding Service.create_project
  create_project-Respects dto = search (P, project_rules) depth 8

  get_all_projects-Respects :
      (order : List ProjectRow → List ProjectRow) (filter : ProjectFilter) (page limit : Option ℤ)
      → Respects R (Service.get_all_projects order schema filter page limit)
  unfolding Service.get_all_projects Repository.find_all Repository.count
  get_all_projects-Respects order filter page limit = search (P, project_rules)

  get_project_by_id-Respects : (id : ℕ) → Respects R (Service.get_project_by_id id schema)
  unfolding Service.get_project_by_id
  get_project_by_id-Respects id = search (P, project_rules)

  update_project-Respects :
      (id : ℕ) (dto : UpdateProjectDto) → Respects R (Service.update_project id dto schema)
  unfolding Service.update_project
  update_project-Respects id dto = search (P, project_rules) depth 10

  delete_project-Respects : (id : ℕ) → Respects R (Service.delete_project id schema)
  unfolding Service.delete_project
  delete_project-Respects id = search (P, project_rules) depth 8

  ruleset service_rules = (
    respects_rules, Contained-respond, create_project-Respects, get_all_projects-Respects,
    get_project_by_id-Respects, update_project-Respects, delete_project-Respects,
  )

  create_project-Contained :
      (body : CreateProjectBody) (tenant_id : Option ℕ)
      → Contained R (Controller.create_project body tenant_id schema)
  unfolding Controller.create_project
  create_project-Contained body tenant_id = search (P, service_rules)

  get_all_projects-Contained :
      (order : List ProjectRow → List ProjectRow) (filter : ProjectFilter) (page limit : Option ℤ)
      → Contained R (Controller.get_all_projects order schema filter page limit)
  unfolding Controller.get_all_projects
  get_all_projects-Contained order filter page limit = search (P, service_rules)

  get_project_by_id-Contained : (id : ℕ) → Contained R (Controller.get_project_by_id id schema)
  unfolding Controller.get_project_by_id
  get_project_by_id-Contained id = search (P, service_rules)

  update_project-Contained :
      (id : ℕ) (dto : UpdateProjectDto) → Contained R (Controller.update_project id dto schema)
  unfolding Controller.update_project
  update_project-Contained id dto = search (P, service_rules)

  delete_project-Contained : (id : ℕ) → Contained R (Controller.delete_project id schema)
  unfolding Controller.delete_project
  delete_project-Contained id = search (P, service_rules)

module _ {R : Db → Db → Type 0} (P : Preorder R) (order : List ProjectRow → List ProjectRow)
    (req : Request) (passes : Bool) where
  pub project_route-Keeps :
      (call : ProjectCall) (user : AuthUser) (scope : Scope)
      → ProjectWrites R scope.tenant_schema
      → Keeps R (project_route order req passes call user scope)
  unfolding project_route
  project_route-Keeps (create_call body) user scope W = Keeps-admin_route P _ _ _ user _ (
      Keeps-with_body P one _ (
        Keeps-audited P _ _ req user scope _ W.logging
          (create_project-Contained P _ W body scope.tenant_id)))
  project_route-Keeps (list_call filter page limit) user scope W =
      Keeps-member_route P _ _ _ user _ (
        Keeps-with_body P many _
          (Keeps-plain P _ (get_all_projects-Contained P _ W order filter page limit)))
  project_route-Keeps (get_call id) user scope W =
      Keeps-member_route P _ _ _ user _
        (Keeps-with_body P one _ (Keeps-plain P _ (get_project_by_id-Contained P _ W id)))
  project_route-Keeps (update_call id dto) user scope W = Keeps-admin_route P _ _ _ user _ (
      Keeps-with_body P one _
        (Keeps-audited P _ _ req user scope _ W.logging (update_project-Contained P _ W id dto)))
  project_route-Keeps (delete_call id) user scope W = Keeps-admin_route P _ _ _ user _ (
      Keeps-with_body P one _
        (Keeps-audited P _ _ req user scope _ W.logging (delete_project-Contained P _ W id)))

  pub projects_handle-Keeps :
      (verify : String → Verified) (call : ProjectCall)
      → ((schema : String) → ProjectWrites R schema)
      → Keeps R (projects_handle order req passes verify call)
  unfolding projects_handle
  projects_handle-Keeps verify call W =
      Keeps-scoped P verify req _ (λ user scope. project_route-Keeps call user scope (W _))
