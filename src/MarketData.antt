-- ===== src/MarketData.antt =====
-- infrastructure/market-data-push-system/market_types.hpp, with the depth book and the broadcaster
-- in the modules below.
pub mod DepthBook
pub mod Broadcaster
pub mod Delivery
pub mod Candles
pub mod CandleLaws
pub mod Keys
pub mod CandleSums
mod Tests
mod Types
pub use Types.*
