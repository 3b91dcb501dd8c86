-- ===== src/Pipeline/Sync.antt =====
-- integration/exchange-pipeline/exchange_pipeline.cpp: the risk engine is told what clearing and
-- matching know. `none` is an exception.
use collections.Prelude.{
  ℕ, Option, none, some, List, [], ◌∷◌, if◌then◌else◌, ◌==◌, string_eq, option_map,
}
use collections.Prelude.Int.{ℤ}
use collections.Prelude.Dict.{lookup}
use collections.Matching.Types.{Side, buy, sell, RestingOrderView}
use collections.Matching.Engine.{engine_snapshot}
use collections.Matching.Views.{resting_orders}
use collections.Clearing.{AccountSnapshot, FeeSchedule, ClearingStatus, applied}
use collections.Clearing.Holds.{account, upsert_account, hold_amount, release_hold}
use collections.Risk.{RiskSide, buy as risk_buy, sell as risk_sell, MarketRiskConfig, RiskEngine}
use collections.Risk.Markets.{
  configure_market, update_top_of_book, set_account_state, track_resting_order,
  clear_user_resting_orders,
}
use collections.Gateway.Access.{register_credential, set_user_rate_limit}
use collections.Pipeline.Types.{ManagedOrder, Pipeline, Platform}
use collections.Pipeline.Orders.{is_zero, front_price}
use Prim.Native.String.{String}

unfoldable pub sync_account_state : String → Pipeline → Pipeline
sync_account_state user_id p = elim (account user_id p.clearing) [
  | none ↦ p
  | some snapshot ↦ record p {
    risk_engine =
        set_account_state user_id p.symbol
          (record {
            quote_balance = snapshot.available_quote;
            base_position = snapshot.available_base;
          })
          p.risk_engine;
  }
]

-- `insert` and `emplace` of an `std::unordered_set`.
unfoldable pub set_insert : String → List String → List String
set_insert user_id [] = user_id ∷ []
set_insert user_id (other ∷ users) =
    if other == user_id then other ∷ users else other ∷ set_insert user_id users

-- The first loop of `sync_resting_orders`.
unfoldable pub clear_users : String → List String → RiskEngine → RiskEngine
clear_users symbol [] r = r
clear_users symbol (user_id ∷ users) r =
    clear_users symbol users (clear_user_resting_orders symbol user_id r)

abbrev pub to_risk_side : Side → RiskSide
to_risk_side buy = risk_buy
to_risk_side sell = risk_sell

-- One round of the second loop, for an order that is known.
unfoldable pub track_view : RestingOrderView → ManagedOrder → Pipeline → Pipeline
unfolding set_insert
track_view resting managed p = record p {
  risk_engine =
      track_resting_order p.symbol
        (record {
          user_id = managed.user_id;
          side = to_risk_side managed.side;
          price = resting.price;
          quantity = resting.open_quantity;
        })
        p.risk_engine;
  resting_users = set_insert managed.user_id p.resting_users;
}

unfoldable pub track_views : List RestingOrderView → Pipeline → Pipeline
unfolding track_view
track_views [] p = p
track_views (resting ∷ views) p = elim (lookup resting.order_id p.order_registry) [
  | none ↦ track_views views p
  | some managed ↦ track_views views (track_view resting managed p)
]

unfoldable pub sync_resting_orders : Platform → Pipeline → Pipeline
unfolding clear_users track_views
sync_resting_orders platform p =
    track_views (resting_orders platform.sort_views p.matching_engine) (record p {
      risk_engine = clear_users p.symbol p.resting_users p.risk_engine;
      resting_users = [];
    })

unfoldable pub refresh_market_reference : Pipeline → Option Pipeline
refresh_market_reference p =
    let top = engine_snapshot 1 p.matching_engine in
    let best_bid = front_price top.bids p.best_bid in
    let best_ask = front_price top.asks p.best_ask in
    option_map
      (λ (engine : RiskEngine). record p {
        best_bid = best_bid;
        best_ask = best_ask;
        risk_engine = engine;
      })
      (update_top_of_book p.symbol best_bid best_ask p.risk_engine)

unfoldable pub release_residual_hold : String → ℤ → Pipeline → Pipeline × ClearingStatus
unfolding is_zero
release_residual_hold hold_id timestamp_ms p = elim (hold_amount hold_id p.clearing) [
  | none ↦ (p, applied)
  | some amount ↦
      if is_zero amount
      then (p, applied)
      else let outcome = release_hold hold_id timestamp_ms p.clearing in
        (record p { clearing = outcome.0 }, outcome.1)
]

unfoldable pub configure_pipeline :
    ℤ → ℤ → FeeSchedule → MarketRiskConfig → Pipeline → Option Pipeline
configure_pipeline best_bid best_ask fee_schedule risk_config p =
    elim (configure_market risk_config p.risk_engine) [
      | none ↦ none
      | some configured ↦
          option_map
            (λ (engine : RiskEngine). record p {
              best_bid = best_bid;
              best_ask = best_ask;
              fee_schedule = fee_schedule;
              risk_engine = engine;
            })
            (update_top_of_book p.symbol best_bid best_ask configured)
    ]

unfoldable pub register_user :
    String → String → String → AccountSnapshot → ℕ → ℤ → Pipeline → Pipeline
unfolding sync_account_state set_insert
register_user api_key secret user_id account_snapshot max_requests window_ms p =
    sync_account_state user_id (record p {
      gateway =
          set_user_rate_limit user_id max_requests window_ms
            (register_credential api_key secret user_id p.gateway);
      clearing = upsert_account user_id account_snapshot p.clearing;
      known_users = set_insert user_id p.known_users;
    })
