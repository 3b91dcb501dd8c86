-- ===== src/Gateway.antt =====
-- core-exchange/unified-access-gateway: credentials, routes, rate limits and sessions of what enters.
pub mod Types
pub mod Access
pub mod Sessions
pub mod Route
pub mod Longest
pub mod Limits
pub mod Passing
pub mod Forwarding
pub mod SessionLaws
mod Tests
pub use Types.*
