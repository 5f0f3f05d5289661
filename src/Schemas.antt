-- ===== src/Schemas.antt =====
-- src/utils/schemaManager.js, and the migrations of src/migrations that make the tables of a schema.
pub mod Manager
pub mod Migrations
pub mod Actions
pub mod Slots
pub mod Upward
pub mod Complete
