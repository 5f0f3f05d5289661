-- ===== src/Projects/Service.antt =====
-- src/modules/projects/project.service.js
use real_estate_multi_tenant.Prelude.{ℕ, ℤ, pos, String, List, Option, none, some, if◌then◌else◌}
use real_estate_multi_tenant.Errors.{not_found}
use real_estate_multi_tenant.Db.{ProjectRow, M, pure, raise, lift, ◌>>=◌}
use real_estate_multi_tenant.Paging.{or_default, offset_of}
use real_estate_multi_tenant.Projects.Dto.{
  CreateProjectDto, UpdateProjectDto, has_updates, project_response,
}
use real_estate_multi_tenant.Projects.Repository
use real_estate_multi_tenant.Projects.Repository.{ProjectFilter}

unfoldable pub create_project : CreateProjectDto → String → M ProjectRow
create_project dto schema = do
  project ← Repository.create dto schema
  lift (project_response (some project))

pub record ProjectPage : Type 0 where
  pub projects : List ProjectRow
  pub total : ℕ
  pub page : ℤ
  pub limit : ℤ

unfoldable pub get_all_projects :
    (List ProjectRow → List ProjectRow)
    → String
    → ProjectFilter
    → Option ℤ
    → Option ℤ
    → M ProjectPage
get_all_projects order schema o page_option limit_option = do
  let page = or_default page_option (pos 1)
  let limit = or_default limit_option (pos 10)
  rows ← Repository.find_all order schema o limit (offset_of page limit)
  total ← Repository.count schema o
  pure (record { projects = rows; total = total; page = page; limit = limit })

-- `if (!project) throw new NotFoundError(…)`
unfoldable pub found : Option ProjectRow → M ProjectRow
found none = raise (not_found "Project not found")
found (some project) = pure project

unfoldable pub get_project_by_id : ℕ → String → M ProjectRow
get_project_by_id id schema = do
  project ← Repository.find_by_id id schema
  p ← found project
  lift (project_response (some p))

unfoldable pub update_project : ℕ → UpdateProjectDto → String → M ProjectRow
update_project id dto schema = do
  project ← Repository.find_by_id id schema
  existing ← found project
  let save = do updated ← Repository.update id dto schema; lift (project_response updated)
  if has_updates dto then save else lift (project_response (some existing))

unfoldable pub delete_project : ℕ → String → M (Unit {0})
delete_project id schema = do
  project ← Repository.find_by_id id schema
  p ← found project
  done ← Repository.soft_delete id schema
  pure tt
