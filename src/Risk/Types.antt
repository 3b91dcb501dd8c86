-- ===== src/Risk/Types.antt =====
-- The types of core-exchange/pre-trade-risk-engine, and the state of the engine.
use collections.Prelude.{ℕ, Bool, Option, none, some, List, [], string_eq}
use collections.Prelude.Int.{ℤ}
use collections.Prelude.Dict.{Dict}
use collections.MarketData.DepthBook.{DepthBook}
use collections.Ring.{Ring, make_ring}
use Prim.Native.String.{String}

pub data RiskSide : Type 0 where
  buy sell : RiskSide

pub data RiskOrderType : Type 0 where
  limit_order market_order : RiskOrderType

pub data RiskReject : Type 0 where
  no_reject invalid_request unknown_symbol price_band_exceeded quantity_limit_exceeded : RiskReject
  notional_limit_exceeded insufficient_balance insufficient_position rate_limited : RiskReject
  self_trade_prevented : RiskReject

pub record RiskRequest : Type 0 where
  pub order_id : String
  pub user_id : String
  pub symbol : String
  pub source_ip : String
  pub side : RiskSide
  pub order_type : RiskOrderType
  pub price : ℤ
  pub quantity : ℤ
  pub timestamp_ms : ℤ

pub record MarketRiskConfig : Type 0 where
  pub symbol : String
  pub max_order_quantity : ℤ
  pub max_order_notional : ℤ
  pub max_price_deviation_ratio : ℤ
  pub max_requests_per_window : ℕ
  pub rate_limit_window_ms : ℤ
  pub enable_self_trade_prevention : Bool

pub record AccountRiskState : Type 0 where
  pub quote_balance : ℤ
  pub base_position : ℤ

pub record RiskRestingOrder : Type 0 where
  pub user_id : String
  pub side : RiskSide
  pub price : ℤ
  pub quantity : ℤ

pub record RiskDecision : Type 0 where
  pub is_accepted : Bool
  pub reject_reason : RiskReject
  pub rule_name : String
  pub order_id : String
  pub user_id : String
  pub symbol : String
  pub reference_price : ℤ
  pub estimated_notional : ℤ
  pub timestamp_ms : ℤ

pub record MarketState : Type 0 where
  pub config : MarketRiskConfig
  pub book : DepthBook
  pub best_bid : Option ℤ
  pub best_ask : Option ℤ

pub record RiskEngine : Type 0 where
  pub markets : Dict String MarketState
  pub risk_accounts : Dict String AccountRiskState
  pub resting_orders : Dict String (List RiskRestingOrder)
  pub request_windows : Dict String (List ℤ)
  pub audit_queue : Ring RiskDecision
  pub audit_history : List RiskDecision

-- The constructor; `none` is the exception for a capacity below 2.
unfoldable pub make_risk_engine : ℕ → Option RiskEngine
make_risk_engine audit_queue_capacity = elim (make_ring {A = RiskDecision} audit_queue_capacity) [
  | none ↦ none
  | some queue ↦ some (record {
    markets = [];
    risk_accounts = [];
    resting_orders = [];
    request_windows = [];
    audit_queue = queue;
    audit_history = [];
  })
]
