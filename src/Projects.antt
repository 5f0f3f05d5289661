-- ===== src/Projects.antt =====
-- The projects of a tenant: src/modules/projects.
pub mod Dto
pub mod Repository
pub mod Service
pub mod Controller
pub mod Routes
pub mod Actions
pub mod Guard
pub mod Isolation
