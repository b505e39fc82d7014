-- ===== src/Handlers.antt =====
-- internal/handler, with the requests and responses of internal/dto: the services behind the routes.
-- The signal service is in SignalHandler. A missing key of a map reads as "".
pub mod Limits
pub mod Runs
pub mod Workflows
pub mod Jobs
