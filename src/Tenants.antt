-- ===== src/Tenants.antt =====
-- src/modules/tenants: the DTOs, the repository, the service, the controller and the routes, and what
-- is proved of them.
pub mod Dto
pub mod Repository
pub mod Service
pub mod Controller
pub mod Routes
pub mod Actions
pub mod Creating
pub mod Sound
pub mod Creation
pub mod Atomic
pub mod Invariant
pub mod Suspension
pub mod Guard
pub mod Registry
pub mod Names
pub mod Ready
pub mod Onboarding
pub mod Fresh
pub mod Welcome
