-- ===== src/MarketData/Types.antt =====
-- The types of infrastructure/market-data-push-system/market_types.hpp that the other projects use.
use collections.Prelude.{ℕ, List}
use collections.Prelude.Int.{ℤ}
use Prim.Native.String.{String}

pub data BookSide : Type 0 where
  bid ask : BookSide

pub record BookLevel : Type 0 where
  pub price : ℤ
  pub quantity : ℤ

pub record DepthSnapshot : Type 0 where
  pub symbol : String
  pub bids : List BookLevel
  pub asks : List BookLevel

pub record DepthDelta : Type 0 where
  pub side : BookSide
  pub price : ℤ
  pub quantity : ℤ

pub record BroadcastMessage : Type 0 where
  pub sequence : ℕ
  pub topic : String
  pub payload : String
