-- ===== src/Users.antt =====
-- users-service: backend/internal/users.
pub mod Server
pub mod Profiles
pub mod Snapshots
mod Tests
