-- ===== src/Stats.antt =====
-- The statistics for Super Admins: src/controllers/superAdminStats.controller.js.
pub mod Controller
pub mod Totals
pub mod Tally
pub mod Reference
pub mod Actions
