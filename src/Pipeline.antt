-- ===== src/Pipeline.antt =====
-- integration/exchange-pipeline: the way of an order through the gateway, the risk engine, the
-- clearing system and the matching engine.
mod Types
pub mod Payload
pub mod Orders
pub mod Sync
pub mod Stages
pub mod Settling
pub mod Submit
pub mod PayloadLaws
pub mod Printing
pub mod Views
pub mod StageViews
pub mod Running
pub mod Runs
pub mod Start
pub mod Late
pub mod Untouched
mod Tests
pub use Types.*
