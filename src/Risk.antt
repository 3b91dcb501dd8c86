-- ===== src/Risk.antt =====
-- core-exchange/pre-trade-risk-engine: the checks an order passes before it may reach the book.
pub mod Types
pub mod Markets
pub mod Rules
pub mod Audit
pub mod Evaluate
pub mod AuditLaws
pub mod Rulebook
pub mod Admission
pub mod Accounts
mod Tests
pub use Types.*
