-- ===== src/Pipeline/Types.antt =====
-- The types of integration/exchange-pipeline, the state of the pipeline, and what the code takes from
-- its platform.
use collections.Prelude.{ℕ, Bool, false, Option, none, some, List, []}
use collections.Prelude.Int.{ℤ, pos}
use collections.Prelude.Dict.{Dict}
use collections.Prelude.Double.{Fpu, Ostream}
use collections.Prelude.Sorting.{Sort}
use collections.MarketData.{BroadcastMessage}
use collections.Consistency.Outbox.{OutboxMessage}
use collections.Matching.Types.{
  Side, OrderType, TimeInForce, MatchResult, RestingOrderView, Engine, make_engine, rejected,
  no_reason,
}
use collections.Clearing.{FeeSchedule, SettlementResult, ClearingSystem, empty_system}
use collections.Risk.{
  RiskSide, RiskOrderType, RiskDecision, RiskEngine, make_risk_engine, no_reject,
}
use collections.Gateway.{
  RouteResult, RouteConfig, Gateway, make_gateway, risk, no_reject as no_route_reject,
}
use collections.Gateway.Access.{configure_route}
use Prim.Native.String.{String}

pub data WorkflowStatus : Type 0 where
  completed route_rejected parse_rejected risk_rejected clearing_rejected : WorkflowStatus
  matching_rejected settlement_rejected workflow_invariant_violation : WorkflowStatus

pub record WorkflowResult : Type 0 where
  pub status : WorkflowStatus
  pub error_detail : String
  pub is_accepted : Bool
  pub route_result : RouteResult
  pub risk_decision : RiskDecision
  pub match_result : MatchResult
  pub settlements : List SettlementResult
  pub route_events : List BroadcastMessage
  pub trade_events : List BroadcastMessage
  pub depth_events : List BroadcastMessage
  pub outbox_messages : List OutboxMessage

-- `WorkflowResult workflow;`
unfoldable pub new_workflow : WorkflowResult
new_workflow = record {
  status = completed;
  error_detail = "";
  is_accepted = false;
  route_result = record {
    is_accepted = false;
    reject_reason = no_route_reject;
    backend = risk;
    route_name = "";
    queued_requests = 0;
  };
  risk_decision = record {
    is_accepted = false;
    reject_reason = no_reject;
    rule_name = "";
    order_id = "";
    user_id = "";
    symbol = "";
    reference_price = pos 0;
    estimated_notional = pos 0;
    timestamp_ms = pos 0;
  };
  match_result = record {
    is_accepted = false;
    final_status = rejected;
    reject_reason = no_reason;
    executed_quantity = pos 0;
    remaining_quantity = pos 0;
    trades = [];
  };
  settlements = [];
  route_events = [];
  trade_events = [];
  depth_events = [];
  outbox_messages = [];
}

pub record ParsedOrder : Type 0 where
  pub order_id : String
  pub user_id : String
  pub symbol : String
  pub source_ip : String
  pub matching_side : Side
  pub risk_side : RiskSide
  pub matching_type : OrderType
  pub risk_type : RiskOrderType
  pub tif : TimeInForce
  pub price : ℤ
  pub quantity : ℤ
  pub timestamp_ms : ℤ

pub record ManagedOrder : Type 0 where
  pub user_id : String
  pub symbol : String
  pub side : Side
  pub hold_id : String

pub record Pipeline : Type 0 where
  pub symbol : String
  pub best_bid : ℤ
  pub best_ask : ℤ
  pub fee_schedule : FeeSchedule
  pub gateway : Gateway
  pub risk_engine : RiskEngine
  pub matching_engine : Engine
  pub clearing : ClearingSystem
  pub order_registry : Dict String ManagedOrder
  pub known_users : List String
  pub resting_users : List String

-- What `std::strtod` says of a text: the number, if it is finite, whether it is out of range, and
-- how many bytes were read.
pub record Strtod : Type 0 where
  pub parsed : Option ℤ
  pub is_out_of_range : Bool
  pub bytes_read : ℕ

-- The parts of the C++ platform that the pipeline's results depend on.
pub record Platform : Type 0 where
  pub fpu : Fpu
  pub ostream : Ostream
  pub strtod : String → Strtod
  pub sort_views : Sort RestingOrderView
  pub sort_routes : Sort RouteConfig

-- The constructor; `none` is the exception for an empty symbol.
unfoldable pub make_pipeline : Platform → String → Option Pipeline
make_pipeline platform symbol = elim (make_gateway 4096) [
  | none ↦ none
  | some gateway ↦ elim (make_risk_engine 4096) [
    | none ↦ none
    | some risk_engine ↦ elim (make_engine platform.ostream symbol 4096) [
      | none ↦ none
      | some matching_engine ↦ some (record {
        symbol = symbol;
        best_bid = pos 0;
        best_ask = pos 0;
        fee_schedule = record { maker_fee_bps = pos 0; taker_fee_bps = pos 0 };
        gateway = configure_route platform.sort_routes "/v1/orders" risk "risk_ingress" gateway;
        risk_engine = risk_engine;
        matching_engine = matching_engine;
        clearing = empty_system;
        order_registry = [];
        known_users = [];
        resting_users = [];
      })
    ]
  ]
]
