-- ===== src/Risk/Tests.antt =====
-- Runs of the risk engine, and its theorems at a concrete engine.
use collections.Prelude.{◌≡◌, refl, arith, true, none, some, List, [], ◌∷◌, ◌↔◌, string_eq}
use collections.Prelude.Int.{pos}
use collections.Prelude.Double.{Fpu, whole}
use collections.Prelude.Text.{◌<>◌}
use collections.MarketData.DepthBook.{empty_book}
use collections.Ring.{Ring}
use collections.Ring.Drained.{IsDrained}
use collections.Risk.Types.{
  RiskRequest, RiskDecision, RiskEngine, MarketRiskConfig, AccountRiskState, buy, limit_order,
}
use collections.Risk.Markets.{set_account_state}
use collections.Risk.Evaluate.{evaluate, account_of}
use collections.Risk.AuditLaws.{evaluate_all-Audits, evaluate_all, Audits}
use collections.Risk.Admission.{evaluate-Accepts, Accepts}
use collections.Risk.Accounts.{set_account_state-collides}

-- Products and quotients of whole numbers.
abbrev exact : Fpu
exact = record { mul = λ x y. x; div = λ x y. x }

abbrev limits : MarketRiskConfig
limits = record {
  symbol = "BTC-USD";
  max_order_quantity = whole 100;
  max_order_notional = whole 1000;
  max_price_deviation_ratio = whole 1;
  max_requests_per_window = 3;
  rate_limit_window_ms = pos 1000;
  enable_self_trade_prevention = true;
}

abbrev no_orders : Ring RiskDecision
no_orders = record { capacity = 2; buffer = λ i. none; head = 0; tail = 0 }

abbrev one_market : RiskEngine
one_market = record {
  markets =
      (
        "BTC-USD",
        record { config = limits; book = empty_book "BTC-USD"; best_bid = none; best_ask = none },
      )
      ∷ [];
  risk_accounts = ("u1|BTC-USD", record { quote_balance = whole 500; base_position = pos 0 }) ∷ [];
  resting_orders = [];
  request_windows = [];
  audit_queue = no_orders;
  audit_history = [];
}

abbrev order : RiskRequest
order = record {
  order_id = "o1";
  user_id = "u1";
  symbol = "BTC-USD";
  source_ip = "10.0.0.1";
  side = buy;
  order_type = limit_order;
  price = whole 10;
  quantity = whole 5;
  timestamp_ms = pos 1;
}

abbrev nobody : RiskRequest
nobody = record order { symbol = "ETH-USD" }

no_orders-IsDrained : IsDrained no_orders
no_orders-IsDrained = record { level = refl; in_range = omega arith; roomy = omega arith }

evaluate_all-Audits_example :
    (r' : RiskEngine) × (decisions : List RiskDecision) × (evaluate_all exact
        (order ∷ nobody ∷ order ∷ [])
        one_market
      ≡ some (r', decisions))
    × Audits one_market r' decisions
evaluate_all-Audits_example =
    evaluate_all-Audits exact (order ∷ nobody ∷ order ∷ []) one_market no_orders-IsDrained

evaluate-Accepts_example :
    (r' : RiskEngine) × (decision : RiskDecision) × (evaluate exact order one_market
      ≡ some (r', decision))
    × ((decision.is_accepted ≡ true) ↔ Accepts exact order one_market)
evaluate-Accepts_example = evaluate-Accepts exact order one_market no_orders-IsDrained

-- What is paid in for the user "a" on the symbol "b|BTC-USD".
abbrev rich : AccountRiskState
rich = record { quote_balance = whole 900; base_position = whole 9 }

set_account_state-collides_example :
    account_of
      (record order { user_id = "a|b" })
      (set_account_state "a" ("b" <> "|" <> "BTC-USD") rich one_market)
    ≡ rich
set_account_state-collides_example =
    set_account_state-collides "a" "b" "BTC-USD" rich one_market (record order { user_id = "a|b" })
      refl refl
