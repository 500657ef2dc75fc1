-- ===== src/Gateway.antt =====
-- The GraphQL gateway: backend/internal/gateway.
pub mod Authctx
pub mod Admin
pub mod Bridge
pub mod Clients
pub mod Cors
pub mod Loaders
pub mod Ready
pub mod Lookups
pub mod Resolvers
pub mod Subscription
pub mod Websocket
mod Tests
mod GraphTests
mod LiveTests
