-- ===== src/Clearing.antt =====
-- core-exchange/account-clearing-system: balances, holds, settlement and the journal.
mod Types
pub mod Amounts
pub mod Holds
pub mod Settle
pub mod Messages
pub mod Journal
pub mod Explained
pub mod Coverage
pub mod Outcome
pub mod Contract
pub mod Spending
pub mod Settled
pub mod SettlementJournal
pub mod Release
pub mod Refusals
mod Tests
pub use Types.*
