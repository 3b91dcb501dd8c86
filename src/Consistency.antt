-- ===== src/Consistency.antt =====
-- infrastructure/distributed-consistency: the outbox, the try-confirm-cancel wallet and the saga.
pub mod Outbox
pub mod Wallet
pub mod WalletLaws
pub mod WalletSums
pub mod WalletRuns
pub mod WalletEnds
pub mod Batches
pub mod Saga
pub mod SagaLaws
mod Tests
