-- ===== src/Risk/Markets.antt =====
-- core-exchange/pre-trade-risk-engine/pre_trade_risk_engine.cpp: markets, accounts and resting
-- orders as they are told to the engine. `none` is an exception.
use collections.Prelude.{
  Bool, true, false, ◌||◌, ◌&&◌, not, Option, none, some, List, [], ◌∷◌, ◌++◌, keep_if,
  if◌then◌else◌, ◌==◌, string_eq, nat_eq,
}
use collections.Prelude.Int.{ℤ, pos, ◌+ℤ◌, leb_ℤ, ltb_ℤ}
use collections.Prelude.Dict.{lookup, insert}
use collections.Prelude.Double.{Fpu, whole}
use collections.Prelude.Text.{is_empty, ◌<>◌}
use collections.MarketData.{BookSide, bid, ask, BookLevel}
use collections.MarketData.DepthBook.{DepthBook, empty_book, update, snapshot}
use collections.Risk.Types.{
  RiskOrderType, limit_order, market_order, RiskRequest, MarketRiskConfig, AccountRiskState,
  RiskRestingOrder, MarketState, RiskEngine,
}
use Prim.Native.String.{String}

-- The tests of `configure_market` that throw.
unfoldable pub valid_config : MarketRiskConfig → Bool
valid_config config =
    not (is_empty config.symbol)
    && not (leb_ℤ config.max_order_quantity (pos 0) || leb_ℤ config.max_order_notional (pos 0))
    && not (config.max_requests_per_window == 0 || leb_ℤ config.rate_limit_window_ms (pos 0))

unfoldable pub configure_market : MarketRiskConfig → RiskEngine → Option RiskEngine
configure_market config r =
    if valid_config config
    then some (record r {
      markets =
          insert config.symbol
            (record {
              config = config;
              book = empty_book config.symbol;
              best_bid = none;
              best_ask = none;
            })
            r.markets;
    })
    else none

-- A cached best price is taken out of the book.
unfoldable pub drop_best : BookSide → Option ℤ → DepthBook → DepthBook
drop_best side none book = book
drop_best side (some price) book = (update side price (pos 0) book).0

unfoldable pub set_best : ℤ → ℤ → MarketState → MarketState
set_best best_bid best_ask market =
    let emptied = drop_best ask market.best_ask (drop_best bid market.best_bid market.book) in
    record market {
      book = (update ask best_ask (whole 1) (update bid best_bid (whole 1) emptied).0).0;
      best_bid = some best_bid;
      best_ask = some best_ask;
    }

unfoldable pub update_top_of_book : String → ℤ → ℤ → RiskEngine → Option RiskEngine
update_top_of_book symbol best_bid best_ask r = elim (lookup symbol r.markets) [
  | none ↦ none
  | some market ↦
      some (record r { markets = insert symbol (set_best best_bid best_ask market) r.markets })
]

unfoldable pub account_key : String → String → String
account_key user_id symbol = user_id <> "|" <> symbol

unfoldable pub set_account_state : String → String → AccountRiskState → RiskEngine → RiskEngine
unfolding account_key
set_account_state user_id symbol state r = record r {
  risk_accounts = insert (account_key user_id symbol) state r.risk_accounts;
}

unfoldable pub resting_orders_for : String → RiskEngine → List RiskRestingOrder
resting_orders_for symbol r = elim (lookup symbol r.resting_orders) [
  | none ↦ []
  | some orders ↦ orders
]

unfoldable pub track_resting_order : String → RiskRestingOrder → RiskEngine → RiskEngine
unfolding resting_orders_for
track_resting_order symbol order r = record r {
  resting_orders = insert symbol (resting_orders_for symbol r ++ order ∷ []) r.resting_orders;
}

unfoldable pub clear_user_resting_orders : String → String → RiskEngine → RiskEngine
clear_user_resting_orders symbol user_id r = elim (lookup symbol r.resting_orders) [
  | none ↦ r
  | some orders ↦ record r {
    resting_orders =
        insert symbol
          (keep_if (λ (order : RiskRestingOrder). not (order.user_id == user_id)) orders)
          r.resting_orders;
  }
]

-- The branches of `reference_price` after the first.
abbrev pub one_sided : RiskRequest → List BookLevel → List BookLevel → ℤ
one_sided request bids asks =
    if is_limited request.order_type && ltb_ℤ (pos 0) request.price
    then request.price
    else front_or (front_or (pos 0) asks) bids
  where
    is_limited : RiskOrderType → Bool
    is_limited limit_order = true
    is_limited market_order = false

    front_or : ℤ → List BookLevel → ℤ
    front_or otherwise [] = otherwise
    front_or otherwise (level ∷ levels) = level.price

unfoldable pub mid_or : Fpu → RiskRequest → List BookLevel → List BookLevel → ℤ
mid_or fpu request (b ∷ bids) (a ∷ asks) = fpu.div (b.price +ℤ a.price) (whole 2)
mid_or fpu request bids asks = one_sided request bids asks

unfoldable pub reference_price : Fpu → MarketState → RiskRequest → ℤ
unfolding mid_or
reference_price fpu market request =
    let top = snapshot 1 market.book in mid_or fpu request top.bids top.asks
