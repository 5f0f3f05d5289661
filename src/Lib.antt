-- ===== src/Lib.antt =====
-- The Real Estate Multi-Tenant API: an HTTP service in which each tenant of a real-estate platform has
-- its own PostgreSQL schema with users, projects, units and audit logs, beside a public schema with
-- the tenants and the Super Admins. Paths are from the repository's root.
--
-- A request passes a router: the middleware checks the token (src/middleware/auth.js), finds the schema
-- of the user's tenant (tenantResolver.js), validates (validate.js) and checks the role (rbac.js, with
-- the matrix of src/config/roles.js); a controller calls a service, the service a repository, and the
-- repository runs SQL; an audit log is written after the reply (auditLogger.js). The files:
--
-- - Prelude: helpers on numbers, lists and options. Errors: src/utils/errors.js. Http: the replies of
--   src/utils/response.js, and what a controller hands on.
-- - Db: the tables that src/migrations create (Rows), code that runs statements and may throw (Exec) and
--   the statements (Statements). A table is a list of rows with the next value of its sequence, for each
--   schema; a missing table makes a statement fail. Every statement has a number, at which the
--   environment says whether it fails and what time it is, so a failure may strike anywhere, and what
--   ran before it stays done. Respects, Confined, Returns and Healthy hold the rules by which a property
--   of states, of one schema, of results, or of runs without failures is followed through code.
-- - Paging: the page, limit and offset of the services, and LIMIT and OFFSET.
-- - Access: Roles, Request, Auth, Rbac, TenantResolver, AuditLogger are one file of the middleware each;
--   Pipeline chains them as the routers do; Isolation, Scoped, Guard, ActiveTenant and Permissions are
--   proofs.
-- - Units: src/modules/units. Dto, Repository, Service, Controller and Routes follow its files; `handle`
--   is the router. Actions is the interface UnitWrites, the five writes of the repository and the audit
--   log as what a property of states must allow, through which the handlers are followed once;
--   Isolation, Lifecycle and Valid fill it, the last with the lemmas of Invariant. Abstract
--   describes bookings, filters and new rows apart from the code, Filter and Booking compare the code with
--   it, Race is the bookings that overlap, with the lemmas of Taken, Guard the calls by role, and Listing
--   creation, lookup and pages.
-- - Schemas: src/utils/schemaManager.js (Manager) and the migrations of a tenant's schema with
--   runTenantMigration of src/migrations/umzug-tenant.js (Migrations). Actions is the interface
--   SchemaWrites, what a property must allow for a schema to be made. Slots says what
--   a statement makes of one table, Upward what one migration makes of a schema and Complete what all do.
--   The indexes of a schema are kept by name, since a second one of a name is an error.
-- - Tenants: src/modules/tenants, in the same files; the transaction of a creation is Db.Transaction:
--   `create_in_transaction` is what stands between begin and commit, and a rollback puts back the rows
--   that the transaction wrote, while the schema and its tables, which are made on other connections,
--   stay. Actions is the interface RouteWrites, Creating fills its creation from TenantWrites, and
--   Registry, Creation, Atomic, Sound, Names, Invariant, Suspension, Guard, Ready, Fresh, Onboarding
--   and Welcome are proofs.
-- - Projects: src/modules/projects, in the same files as Units; Actions is the interface ProjectWrites.
-- - AuditLogs: src/modules/auditLogs, which only reads.
-- - Stats: src/controllers/superAdminStats.controller.js; Reference is its description on the tables,
--   with the counts of Tally.
-- - Api: src/routes/index.js. `route` is one request, `serve_all` requests one after the other; Actions
--   joins the interfaces of the parts to ApiWrites, which Growth, Trail, References and WellFormed fill,
--   with Free for the parts that a property does not look at.
-- - Users: src/modules/users, in the same files; `users_handle` is the router under /users, and the
--   logins and the refresh of tokens stand beside it. Actions is the interface UserWrites, which
--   Isolation fills, and Emails for whole requests; Guard is the calls by role, Login what a login proves, Credentials its
--   description on the tables, Session the token of a login in later requests, Cost the statements of a
--   login, Taken an email that is taken, and SignIn says that logins write nothing.
--
-- Not in the repository, and so parameters: `verify` is jsonwebtoken's verify with the secret;
-- `valid` is Joi's answer (`passes` where the name is taken); `sign` is jsonwebtoken's sign, `hash`
-- and `compare` are those of bcryptjs, where the salt is drawn by the number of the next statement;
-- `order` is the database's ORDER BY; `pending` is what the package umzug finds still to run, and
-- `Floats` are the floating-point numbers of the engine, by their 64 bits, with `parseFloat`, `+` and
-- `toFixed`. Express matches paths. Amounts in DECIMAL columns are counted in hundredths. Texts are as long
-- as they have characters; the lengths of the columns of tenants and users are kept.
-- Sequences and times are natural numbers without a bound. Every loop of the code that is modelled
-- runs over a list, so there is no fuel.
--
-- Not modelled: the public migrations beside the columns and constraints they declare, the downward
-- migrations and the command lines of the scripts; the server, its configuration, logging and
-- documentation, which are input and output; console output in error paths; the message list of a failed
-- validation; and the delay of an audit log by setImmediate, which is written here right after its reply.
pub mod Access
pub mod Api
pub mod AuditLogs
pub mod Db
pub mod Errors
pub mod Http
pub mod Paging
pub mod Prelude
pub mod Projects
pub mod Schemas
pub mod Stats
pub mod Tenants
pub mod Units
pub mod Users
