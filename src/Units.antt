-- ===== src/Units.antt =====
-- src/modules/units: the DTOs, the repository, the service and the controller, and what is proved
-- of them.
pub mod Dto
pub mod Repository
pub mod Service
pub mod Controller
pub mod Routes
pub mod Actions
pub mod Isolation
pub mod Lifecycle
pub mod Invariant
pub mod Valid
pub mod Booking
pub mod Taken
pub mod Race
pub mod Guard
pub mod Listing
mod Tests
pub mod Abstract
pub mod Filter
