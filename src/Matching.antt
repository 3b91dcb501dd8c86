-- ===== src/Matching.antt =====
-- core-exchange/orderbook-matching-engine: the limit order book of one symbol.
pub mod Types
pub mod Events
pub mod Book
pub mod Match
pub mod Engine
pub mod Views
pub mod Offers
pub mod Wellformed
pub mod Removal
pub mod OfferLaws
pub mod Step
pub mod Take
pub mod TakeLaws
pub mod Round
pub mod Refine
pub mod Rest
pub mod Killing
pub mod Submit
pub mod Finalize
pub mod Outcome
pub mod Trades
pub mod Reachable
pub mod Policies
pub mod DepthOverwrite
mod Tests
pub use Types.*
