-- ===== src/Risk/Rules.antt =====
-- core-exchange/pre-trade-risk-engine/pre_trade_risk_engine.cpp: the rules and their order.
use collections.Prelude.{
  Bool, true, false, ◌||◌, ◌&&◌, not, none, some, List, [], ◌∷◌, keep_if, length, leb,
  if◌then◌else◌, ◌==◌, string_eq,
}
use collections.Prelude.Int.{ℤ, pos, ◌-ℤ◌, leb_ℤ, ltb_ℤ}
use collections.Prelude.Dict.{lookup}
use collections.Prelude.Double.{Fpu, fabs}
use collections.Prelude.Text.{is_empty}
use collections.Risk.Types.{
  RiskSide, buy, sell, RiskOrderType, limit_order, market_order, RiskReject, no_reject,
  price_band_exceeded, quantity_limit_exceeded, notional_limit_exceeded, insufficient_balance,
  insufficient_position, rate_limited, self_trade_prevented, RiskRequest, MarketRiskConfig,
  AccountRiskState, RiskRestingOrder, RiskDecision, MarketState, RiskEngine,
}
use collections.Risk.Markets.{reference_price, resting_orders_for}
use Prim.Native.String.{String}

abbrev pub is_limit : RiskOrderType → Bool
is_limit limit_order = true
is_limit market_order = false

abbrev pub is_buy : RiskSide → Bool
is_buy buy = true
is_buy sell = false

abbrev pub same_side : RiskSide → RiskSide → Bool
same_side buy buy = true
same_side sell sell = true
same_side _ _ = false

-- The reference price of a decision, which is zero without a market.
unfoldable pub decision_price : Fpu → RiskRequest → RiskEngine → ℤ
decision_price fpu request r = elim (lookup request.symbol r.markets) [
  | none ↦ pos 0
  | some found ↦ reference_price fpu found request
]

unfoldable pub make_decision :
    Fpu → RiskRequest → Bool → RiskReject → String → RiskEngine → RiskDecision
unfolding decision_price
make_decision fpu request is_accepted reject_reason rule_name r =
    let ref_price = decision_price fpu request r in
    record {
      is_accepted = is_accepted;
      reject_reason = reject_reason;
      rule_name = rule_name;
      order_id = request.order_id;
      user_id = request.user_id;
      symbol = request.symbol;
      reference_price = ref_price;
      estimated_notional = fpu.mul ref_price request.quantity;
      timestamp_ms = request.timestamp_ms;
    }

unfoldable pub has_bad_shape : RiskRequest → Bool
has_bad_shape request =
    is_empty request.order_id
    || is_empty request.user_id
    || is_empty request.symbol
    || leb_ℤ request.quantity (pos 0)
    || leb_ℤ request.timestamp_ms (pos 0)
    || is_empty request.source_ip

unfoldable pub trim_request_window : MarketRiskConfig → List ℤ → ℤ → List ℤ
trim_request_window config request_window timestamp_ms =
    keep_if
      (λ (window_timestamp : ℤ).
        not (ltb_ℤ window_timestamp (timestamp_ms -ℤ config.rate_limit_window_ms)))
      request_window

-- The lambda of `would_self_trade`.
unfoldable pub crosses_own : RiskRequest → RiskRestingOrder → Bool
crosses_own request order =
    if not (order.user_id == request.user_id)
      || leb_ℤ order.quantity (pos 0)
      || same_side order.side request.side
    then false
    else if not (is_limit request.order_type)
    then true
    else if is_buy request.side
    then leb_ℤ order.price request.price
    else leb_ℤ request.price order.price

unfoldable pub would_self_trade : RiskRequest → List RiskRestingOrder → Bool
would_self_trade request [] = false
would_self_trade request (order ∷ orders) =
    if crosses_own request order then true else would_self_trade request orders

-- The tests of `evaluate_market_rules`, by name.
unfoldable pub outside_band : Fpu → MarketState → RiskRequest → ℤ → Bool
outside_band fpu at request ref_price =
    is_limit request.order_type
    && ltb_ℤ (pos 0) ref_price
    && ltb_ℤ at.config.max_price_deviation_ratio
        (fpu.div (fabs (request.price -ℤ ref_price)) ref_price)

unfoldable pub evaluate_market_rules :
    Fpu → RiskRequest → MarketState → AccountRiskState → ℤ → ℤ → List ℤ → RiskEngine → RiskDecision
unfolding outside_band would_self_trade
evaluate_market_rules fpu request at account ref_price notional request_window r =
    let rejected =
      λ (reason : RiskReject) (rule : String). make_decision fpu request false reason rule r in
    if ltb_ℤ at.config.max_order_quantity request.quantity
    then rejected quantity_limit_exceeded "quantity_limit"
    else if ltb_ℤ at.config.max_order_notional notional
    then rejected notional_limit_exceeded "notional_limit"
    else if outside_band fpu at request ref_price
    then rejected price_band_exceeded "price_band"
    else if is_buy request.side && ltb_ℤ account.quote_balance notional
    then rejected insufficient_balance "available_quote_balance"
    else if not (is_buy request.side) && ltb_ℤ account.base_position request.quantity
    then rejected insufficient_position "available_base_position"
    else if leb at.config.max_requests_per_window (length request_window)
    then rejected rate_limited "user_ip_rate_limit"
    else if at.config.enable_self_trade_prevention
        && would_self_trade request (resting_orders_for request.symbol r)
    then rejected self_trade_prevented "self_trade_prevention"
    else make_decision fpu request true no_reject "accepted" r
