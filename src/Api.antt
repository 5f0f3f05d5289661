-- ===== src/Api.antt =====
-- The whole API: src/routes/index.js.
pub mod Routes
pub mod Actions
pub mod Free
pub mod Growth
pub mod Trail
pub mod References
pub mod WellFormed
mod Sample
mod Tests
