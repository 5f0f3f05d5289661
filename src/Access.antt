-- ===== src/Access.antt =====
-- Who may do what: src/config/roles.js and the middleware of src/middleware that stands in front of
-- and behind the controllers.
pub mod Roles
pub mod Request
pub mod Auth
pub mod Rbac
pub mod TenantResolver
pub mod AuditLogger
pub mod Pipeline
pub mod Isolation
pub mod Scoped
pub mod Permissions
pub mod Guard
pub mod ActiveTenant
mod Tests
pub mod SuperAdmin
