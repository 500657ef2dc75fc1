-- ===== src/Process.antt =====
-- What every process of backend/cmd shares: request ids, health checks, the configuration of the
-- database, and the shutdown.
pub mod RequestIds
pub mod Startup
pub mod Shutdown
pub mod Lifecycle
mod Tests
mod LifeTests
