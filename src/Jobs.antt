-- ===== src/Jobs.antt =====
-- jobs-service: backend/internal/jobs.
pub mod Model
pub mod Server
pub mod Snapshot
pub mod Matcher
pub mod Memory
mod Tests
mod CacheTests
