-- ===== src/Observability.antt =====
-- tooling/observability-stack: metrics, spans and alerts behind a queue.
pub mod Types
pub mod Stack
pub mod History
pub mod Streaks
pub mod Calls
mod Tests
