-- ===== src/MarketData/DepthBook.antt =====
-- infrastructure/market-data-push-system/depth_book.hpp: the aggregated quantity of each price.
use collections.Prelude.{ℕ, ◌+◌, Bool, List, [], ◌∷◌, if◌then◌else◌, ◌==◌, nat_eq}
use collections.Prelude.Int.{ℤ, pos, ltb_ℤ, leb_ℤ}
use collections.Prelude.OrderedMap.{OrderedMap, assign, erase_key}
use collections.MarketData.Types.{BookSide, bid, ask, BookLevel, DepthSnapshot, DepthDelta}
use Prim.Native.String.{String}

-- `std::greater` orders the bids, `std::less` the asks.
abbrev pub greater : ℤ → ℤ → Bool
greater a b = ltb_ℤ b a

abbrev pub less : ℤ → ℤ → Bool
less a b = ltb_ℤ a b

pub record DepthBook : Type 0 where
  pub symbol : String
  pub bids : OrderedMap ℤ
  pub asks : OrderedMap ℤ

unfoldable pub empty_book : String → DepthBook
empty_book symbol = record { symbol = symbol; bids = []; asks = [] }

unfoldable pub apply_update : (ℤ → ℤ → Bool) → OrderedMap ℤ → ℤ → ℤ → OrderedMap ℤ
apply_update before book price quantity =
    if leb_ℤ quantity (pos 0)
    then erase_key before price book
    else assign before price quantity book

-- `update`: the new book and the delta.
unfoldable pub update : BookSide → ℤ → ℤ → DepthBook → DepthBook × DepthDelta
update bid price quantity b = (
  record b { bids = apply_update greater b.bids price quantity },
  record { side = bid; price = price; quantity = quantity },
)
update ask price quantity b = (
  record b { asks = apply_update less b.asks price quantity },
  record { side = ask; price = price; quantity = quantity },
)

-- The loop of `append_levels`, with its counter: it stops once `count == depth` after a push.
unfoldable pub append_levels : ℕ → ℕ → OrderedMap ℤ → List BookLevel
append_levels count depth [] = []
append_levels count depth ((price, quantity) ∷ book) =
    record { price = price; quantity = quantity }
    ∷ (if count + 1 == depth then [] else append_levels (count + 1) depth book)

unfoldable pub snapshot : ℕ → DepthBook → DepthSnapshot
snapshot depth b = record {
  symbol = b.symbol;
  bids = append_levels 0 depth b.bids;
  asks = append_levels 0 depth b.asks;
}
