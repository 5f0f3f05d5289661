-- ===== src/Users.antt =====
-- src/modules/users: the DTOs, the repository, the service, the controller and the routes, and what
-- is proved of them. The packages bcryptjs and jsonwebtoken are the parameters `hash`, `compare` and
-- `sign`.
pub mod Dto
pub mod Repository
pub mod Service
pub mod Login
pub mod Controller
pub mod Routes
pub mod Actions
pub mod Isolation
pub mod Emails
pub mod Taken
pub mod Guard
mod Tests
pub mod Credentials
pub mod Session
pub mod SignIn
pub mod Cost
