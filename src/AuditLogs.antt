-- ===== src/AuditLogs.antt =====
-- The listing of the audit log: src/modules/auditLogs.
pub mod Repository
pub mod Service
pub mod Routes
pub mod Actions
