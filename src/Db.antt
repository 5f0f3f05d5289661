-- ===== src/Db.antt =====
-- The database as the repositories see it: the rows of each table (src/migrations and the models)
-- and the statements that they run. A schema that lacks a table gives an error, as the driver
-- does. Any statement may fail: `fails` and `time` are what the environment chooses.
mod Rows
mod Exec
mod Statements
pub mod Confined
pub mod Returns
pub mod Respects
pub mod Healthy
pub mod Ends
pub mod Transaction
pub use Rows.{
  UnitStatus, available, booked, sold, UnitRow, ProjectRow, UserRow, TenantRow, Snapshot, of_unit,
  of_project, of_user, AuditRow, Table, Db,
}
unfoldable pub use Rows.{update}
pub use Exec.{Result, ok, err, M, pure, raise, ◌>>=◌, ◌>>◌, attempt, lift, recover, continue}
unfoldable pub use Statements.{
  run, select_where, count_where, select_page, insert_into, update_where, delete_where,
}
pub use Statements.{set_rows, Relation, tenants, units, projects, users, audit_logs}
