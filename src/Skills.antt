-- ===== src/Skills.antt =====
-- skills-service: backend/internal/skills/server.go and model.go.
pub mod Server
pub mod Laws
mod Memory
pub mod Outcomes
pub mod Coherence
pub mod Race
mod Tests
