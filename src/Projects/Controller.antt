-- ===== src/Projects/Controller.antt =====
-- src/modules/projects/project.controller.js: `schema` is `req.tenantSchema`, `id` is
-- `req.params.id`, `tenant_id` is `req.tenantId`.
use real_estate_multi_tenant.Prelude.{ℕ, ℤ, String, List, Option, none, some}
use real_estate_multi_tenant.Errors.{Error, not_found}
use real_estate_multi_tenant.Db.{ProjectRow, Db, of_project, pure, ◌>>=◌}
use real_estate_multi_tenant.Http.{Reply, Handled, send_success, send_created, send_error, respond}
use real_estate_multi_tenant.Projects.Dto.{CreateProjectBody, UpdateProjectDto, create_project_dto}
use real_estate_multi_tenant.Projects.Repository.{ProjectFilter}
use real_estate_multi_tenant.Projects.Service
use real_estate_multi_tenant.Projects.Service.{ProjectPage}

abbrev pub internal_error : {A : Type 0} → Error → Reply A
internal_error e = send_error e 500

abbrev pub not_found_or_500 : {A : Type 0} → Error → Reply A
not_found_or_500 (not_found m) = send_error (not_found m) 404
not_found_or_500 e = send_error e 500

unfoldable pub create_project : CreateProjectBody → Option ℕ → String → Db → Handled ProjectRow × Db
create_project body tenant_id schema =
    respond
      (do
        project ← Service.create_project (create_project_dto body tenant_id) schema
        pure (
          send_created project "Project created successfully",
          some (record {
            entity_id = project.id;
            old_values = none;
            new_values = some (of_project project);
          }),
        ))
      internal_error

unfoldable pub get_all_projects :
    (List ProjectRow → List ProjectRow)
    → String
    → ProjectFilter
    → Option ℤ
    → Option ℤ
    → Db
    → Handled ProjectPage × Db
get_all_projects order schema o page limit =
    respond
      (do
        result ← Service.get_all_projects order schema o page limit
        pure (send_success (some result) "Projects retrieved successfully", none))
      internal_error

unfoldable pub get_project_by_id : ℕ → String → Db → Handled ProjectRow × Db
get_project_by_id id schema =
    respond
      (do
        project ← Service.get_project_by_id id schema
        pure (send_success (some project) "Project retrieved successfully", none))
      not_found_or_500

unfoldable pub update_project : ℕ → UpdateProjectDto → String → Db → Handled ProjectRow × Db
update_project id dto schema =
    respond
      (do
        old ← Service.get_project_by_id id schema
        project ← Service.update_project id dto schema
        pure (
          send_success (some project) "Project updated successfully",
          some (record {
            entity_id = project.id;
            old_values = some (of_project old);
            new_values = some (of_project project);
          }),
        ))
      not_found_or_500

unfoldable pub delete_project : ℕ → String → Db → Handled ProjectRow × Db
delete_project id schema =
    respond
      (do
        old ← Service.get_project_by_id id schema
        done ← Service.delete_project id schema
        pure (
          send_success none "Project deleted successfully",
          some (record { entity_id = id; old_values = some (of_project old); new_values = none }),
        ))
      not_found_or_500
