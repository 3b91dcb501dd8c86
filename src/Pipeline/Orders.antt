-- ===== src/Pipeline/Orders.antt =====
-- integration/exchange-pipeline/exchange_pipeline.cpp: what each component is told of an order.
use collections.Prelude.{
  ℕ, ◌-◌, ◌%◌, ◌^◌, Bool, true, false, ◌||◌, not, List, [], ◌∷◌, if◌then◌else◌,
}
use collections.Prelude.Int.{ℤ, pos, negsuc, ◌+ℤ◌, leb_ℤ}
use collections.Prelude.Double.{Fpu, whole, epsilon, fabs}
use collections.Prelude.Text.{◌<>◌}
use collections.MarketData.{BookLevel}
use collections.Matching.Types.{Side, buy, sell, OrderType, limit, market, OrderRequest}
use collections.Matching.Engine.{engine_snapshot}
use collections.Clearing.{
  ClearingStatus, insufficient_quote_balance, insufficient_base_position, account_not_found,
  invalid_input, hold_already_exists,
}
use collections.Risk.{
  RiskRequest, RiskReject, insufficient_balance, insufficient_position, invalid_request,
}
use collections.Pipeline.Types.{ParsedOrder, Pipeline}
use Prim.Native.String.{String}

unfoldable pub is_zero : ℤ → Bool
is_zero value = leb_ℤ (fabs value) epsilon

abbrev pub is_buy : Side → Bool
is_buy buy = true
is_buy sell = false

abbrev pub is_market : OrderType → Bool
is_market market = true
is_market limit = false

unfoldable pub to_risk_reject_reason : ClearingStatus → Side → RiskReject
to_risk_reject_reason insufficient_quote_balance side = insufficient_balance
to_risk_reject_reason insufficient_base_position side = insufficient_position
to_risk_reject_reason account_not_found side = invalid_request
to_risk_reject_reason invalid_input side = invalid_request
to_risk_reject_reason hold_already_exists side = invalid_request
to_risk_reject_reason _ side = if is_buy side then insufficient_balance else insufficient_position

-- `static_cast<std::uint64_t>`
abbrev pub to_u64 : ℤ → ℕ
to_u64 (pos n) = n % 2 ^ 64
to_u64 (negsuc n) = 2 ^ 64 - 1 - n % 2 ^ 64

unfoldable pub to_matching_request : ParsedOrder → OrderRequest
to_matching_request order = record {
  order_id = order.order_id;
  side = order.matching_side;
  order_type = order.matching_type;
  tif = order.tif;
  price = order.price;
  quantity = order.quantity;
  timestamp = to_u64 order.timestamp_ms;
}

unfoldable pub to_risk_request : ParsedOrder → RiskRequest
to_risk_request order = record {
  order_id = order.order_id;
  user_id = order.user_id;
  symbol = order.symbol;
  source_ip = order.source_ip;
  side = order.risk_side;
  order_type = order.risk_type;
  price = order.price;
  quantity = order.quantity;
  timestamp_ms = order.timestamp_ms;
}

unfoldable pub hold_id_for : String → String
hold_id_for order_id = "hold-" <> order_id

abbrev pub front_price : List BookLevel → ℤ → ℤ
front_price [] otherwise = otherwise
front_price (level ∷ levels) otherwise = level.price

unfoldable pub reserve_amount : Fpu → ParsedOrder → Pipeline → ℤ
reserve_amount fpu order p =
    if not (is_buy order.matching_side)
    then order.quantity
    else let price =
        if is_market order.matching_type || leb_ℤ order.price (pos 0)
        then front_price (engine_snapshot 1 p.matching_engine).asks p.best_ask
        else order.price in
      fpu.mul (fpu.mul price order.quantity)
        (whole 1 +ℤ fpu.div p.fee_schedule.taker_fee_bps (whole 10000))
