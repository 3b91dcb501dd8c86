-- ===== src/Memory.antt =====
-- infrastructure/memory-pool: the pools of blocks.
pub mod Pool
pub mod Counting
pub mod Accounting
pub mod Uses
mod Tests
