-- ===== src/Risk/Evaluate.antt =====
-- core-exchange/pre-trade-risk-engine/pre_trade_risk_engine.cpp: the evaluation of an order. `none`
-- is an exception, or the end of the fuel of a flush.
use collections.Prelude.{
  ℕ, false, Option, none, some, List, [], ◌∷◌, ◌++◌, if◌then◌else◌, string_eq,
}
use collections.Prelude.Int.{ℤ, pos}
use collections.Prelude.Dict.{lookup, insert}
use collections.Prelude.Double.{Fpu}
use collections.Prelude.Text.{◌<>◌}
use collections.Ring.{size_approx}
use collections.Risk.Types.{
  invalid_request, unknown_symbol, RiskRequest, AccountRiskState, RiskDecision, MarketState,
  RiskEngine,
}
use collections.Risk.Markets.{reference_price, account_key}
use collections.Risk.Rules.{
  make_decision, has_bad_shape, trim_request_window, evaluate_market_rules,
}
use collections.Risk.Audit.{finalize_decision}
use Prim.Native.String.{String}

unfoldable pub window_key : RiskRequest → String
window_key request = request.user_id <> "|" <> request.source_ip

-- The requests of the user and the address, without the old ones.
unfoldable pub current_window : RiskRequest → MarketState → RiskEngine → List ℤ
unfolding window_key trim_request_window
current_window request at r =
    trim_request_window at.config
      (elim (lookup (window_key request) r.request_windows) [ none ↦ [] | some times ↦ times ])
      request.timestamp_ms

unfoldable pub account_of : RiskRequest → RiskEngine → AccountRiskState
unfolding account_key
account_of request r = elim (lookup (account_key request.user_id request.symbol) r.risk_accounts) [
  | none ↦ record { quote_balance = pos 0; base_position = pos 0 }
  | some found ↦ found
]

-- The decision of an order whose market is there.
unfoldable pub market_decision : Fpu → RiskRequest → MarketState → RiskEngine → RiskDecision
unfolding current_window account_of
market_decision fpu request at r =
    let ref_price = reference_price fpu at request in
    evaluate_market_rules fpu request at (account_of request r) ref_price
      (fpu.mul ref_price request.quantity) (current_window request at r) r

-- The window, trimmed and with the request in it, whatever the decision is.
unfoldable pub note_request : RiskRequest → MarketState → RiskEngine → RiskEngine
unfolding window_key current_window
note_request request at r = record r {
  request_windows =
      insert (window_key request) (current_window request at r ++ request.timestamp_ms ∷ [])
        r.request_windows;
}

unfoldable pub evaluate : Fpu → RiskRequest → RiskEngine → Option (RiskEngine × RiskDecision)
unfolding market_decision note_request
evaluate fpu request r =
    if has_bad_shape request
    then finalize_decision (make_decision fpu request false invalid_request "request_shape" r) r
    else elim (lookup request.symbol r.markets) [
      | none ↦
          finalize_decision (make_decision fpu request false unknown_symbol "symbol_configured" r) r
      | some at ↦ finalize_decision (market_decision fpu request at r) (note_request request at r)
    ]

unfoldable pub pending_audit_events : RiskEngine → ℕ
pending_audit_events r = size_approx r.audit_queue
