-- ===== src/Auth.antt =====
-- auth-service: backend/internal/auth.
pub mod Model
pub mod Google
pub mod Server
pub mod Sessions
pub mod Linking
mod Tests
