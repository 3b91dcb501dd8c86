-- ===== src/Pipeline/Tests.antt =====
-- Runs of the pipeline, and its theorems at a concrete pipeline.
use collections.Pipeline.Untouched.{Untouched, submit_request-Untouched}
use collections.Pipeline.Submit.{submit_request, after_route, read_order}
use collections.Pipeline.Stages.{route_request, parse_forwarded_request}
use collections.Pipeline.Payload.{parse_order, parse_fields, key_values_loop, add_token}
use collections.Pipeline.Types.{new_workflow}
use collections.Gateway.Route.{route, forward, announced, poll_forwarded_request}
use collections.Gateway.Access.{
  has_valid_request_shape, has_valid_credentials, expected_signature, match_route, first_match,
  backend_available, consume_rate_limit,
}
use collections.Ring.{push, try_pop, slot_of, size_approx, set_slot}
use collections.Prelude.Dict.{emplace}
use collections.Prelude.{
  ◌*◌, ◌/◌, ◌^◌, ◌≡◌, refl, arith, true, false, Option, none, some, List, [], ◌∷◌, ◌==◌,
  if◌then◌else◌, string_eq, length,
}
use collections.Prelude.Int.{ℤ, pos, int_laws}
use collections.Prelude.Dict.{lookup}
use collections.Prelude.Double.{whole}
use collections.Prelude.Sorting.{insertion}
use collections.MarketData.DepthBook.{empty_book}
use collections.MarketData.Broadcaster.{empty_broadcaster}
use collections.Ring.{Ring}
use collections.Clearing.{AccountSnapshot, empty_system}
use collections.Risk.Types.{MarketRiskConfig, MarketState, AccountRiskState}
use collections.Gateway.Types.{GatewayRequest, rest, risk}
use collections.Pipeline.Types.{Platform, Pipeline, WorkflowResult, make_pipeline}
use collections.Pipeline.Payload.{parse_key_values, cut}
use collections.Pipeline.Printing.{print_fields, first_of_each, parse_key_values-print_fields}
use collections.Pipeline.Views.{view}
use collections.Pipeline.Running.{IsReady}
use collections.Pipeline.Runs.{submit_requests, submit_requests-Ends}
use collections.Pipeline.Start.{User, set_up, set_up-IsReady}
use collections.Pipeline.Sync.{configure_pipeline}
use collections.Gateway.Types.{make_gateway}
use collections.Risk.Types.{make_risk_engine}
use collections.Matching.Types.{make_engine}
use collections.Ring.{make_ring, normalize_capacity, bit_ceil_loop}
use collections.Risk.Markets.{configure_market, valid_config, update_top_of_book}
use collections.Prelude.Dict.{insert}
use Prim.Native.String.{String, len}

-- Products and quotients of amounts that are not below zero, cut off at the last place.
abbrev product : ℤ → ℤ → ℤ
product (pos a) (pos b) = pos (a * b / 2 ^ 1074)
product _ _ = pos 0

abbrev quotient : ℤ → ℤ → ℤ
quotient (pos a) (pos b) = pos (a * 2 ^ 1074 / b)
quotient _ _ = pos 0

-- The texts of the orders below stand for 5 and 10.
abbrev simple : Platform
simple = record {
  fpu = record { mul = product; div = quotient };
  ostream = record { print_double = λ x. ""; print_size = λ n. "" };
  strtod = λ text. record {
    parsed = some (if text == "5" then whole 5 else whole 10);
    is_out_of_range = false;
    bytes_read = len text;
  };
  sort_views = insertion;
  sort_routes = insertion;
}

abbrev idle {ℓ} : {A : Type ℓ} → Ring A
idle = record { capacity = 4096; buffer = λ i. none; head = 0; tail = 0 }

abbrev limits : MarketRiskConfig
limits = record {
  symbol = "BTC-USD";
  max_order_quantity = whole 100;
  max_order_notional = whole 1000;
  max_price_deviation_ratio = whole 1;
  max_requests_per_window = 3;
  rate_limit_window_ms = pos 1000;
  enable_self_trade_prevention = true;
}

abbrev open_market : MarketState
open_market = record {
  config = limits;
  book = empty_book "BTC-USD";
  best_bid = none;
  best_ask = none;
}

abbrev funded : AccountSnapshot
funded = record {
  available_quote = whole 500;
  frozen_quote = pos 0;
  available_base = whole 50;
  frozen_base = pos 0;
  base_cost = pos 0;
  realized_pnl = pos 0;
}

abbrev cash : AccountRiskState
cash = record { quote_balance = whole 500; base_position = whole 50 }

abbrev exchange : Pipeline
exchange = record {
  symbol = "BTC-USD";
  best_bid = whole 9;
  best_ask = whole 11;
  fee_schedule = record { maker_fee_bps = pos 0; taker_fee_bps = pos 0 };
  gateway = record {
    credentials =
        ("key", record { secret = "s3"; user_id = "u1" })
        ∷ ("key2", record { secret = "s4"; user_id = "u2" })
        ∷ [];
    routes =
        record { path_prefix = "/v1/orders"; backend = risk; route_name = "risk_ingress" } ∷ [];
    user_limits = [];
    user_windows = [];
    backend_health = [];
    sessions = [];
    ingress_queue = idle;
    gateway_broadcaster = empty_broadcaster;
  };
  risk_engine = record {
    markets = ("BTC-USD", open_market) ∷ [];
    risk_accounts = ("u1|BTC-USD", cash) ∷ ("u2|BTC-USD", cash) ∷ [];
    resting_orders = [];
    request_windows = [];
    audit_queue = idle;
    audit_history = [];
  };
  matching_engine = record {
    symbol = "BTC-USD";
    ostream = simple.ostream;
    bids = [];
    asks = [];
    live_orders = [];
    depth_book = empty_book "BTC-USD";
    broadcaster = empty_broadcaster;
    event_queue = idle;
  };
  clearing = record empty_system { accounts = ("u1", funded) ∷ ("u2", funded) ∷ [] };
  order_registry = [];
  known_users = "u1" ∷ [];
  resting_users = [];
}

exchange-IsReady : IsReady (view exchange)
unfolding lookup
exchange-IsReady = record {
  ingress_drained = record { level = refl; in_range = omega arith; roomy = omega arith };
  audit_drained = record { level = refl; in_range = omega arith; roomy = omega arith };
  books_ok = record { bids_ok = tt; asks_ok = tt };
  market_known = (open_market, refl);
}

abbrev order_text : List (String × String)
order_text =
    ("side", "buy")
    ∷ ("type", "limit")
    ∷ ("tif", "gtc")
    ∷ ("order_id", "o1")
    ∷ ("symbol", "BTC-USD")
    ∷ ("source_ip", "10.0.0.1")
    ∷ ("quantity", "5")
    ∷ ("price", "10")
    ∷ []

parse_key_values-print_fields_example :
    parse_key_values (print_fields order_text) ≡ some (first_of_each order_text [])
unfolding cut
parse_key_values-print_fields_example = parse_key_values-print_fields order_text (
  (refl, refl, refl),
  (
    (refl, refl, refl),
    (
      (refl, refl, refl),
      (
        (refl, refl, refl),
        ((refl, refl, refl), ((refl, refl, refl), ((refl, refl, refl), ((refl, refl, refl), tt)))),
      ),
    ),
  ),
)

abbrev order_in : GatewayRequest
order_in = record {
  request_id = "r1";
  user_id = "u1";
  api_key = "key";
  signature = "key:s3:r1";
  path = "/v1/orders";
  payload =
      "side=buy;type=limit;tif=gtc;order_id=o1;symbol=BTC-USD;source_ip=10.0.0.1;quantity=5;price=10";
  protocol = rest;
  timestamp_ms = pos 7;
}

-- The other side of it.
abbrev sale : GatewayRequest
sale = record order_in {
  user_id = "u2";
  api_key = "key2";
  signature = "key2:s4:r1";
  payload =
      "side=sell;type=limit;tif=gtc;order_id=o2;symbol=BTC-USD;source_ip=10.0.0.2;quantity=5;price=10";
}

abbrev garbled : GatewayRequest
garbled = record order_in { payload = "side=up" }

submit_requests-Ends_example :
    (next : Pipeline) × (workflows : List WorkflowResult) × (submit_requests simple
        (order_in ∷ sale ∷ garbled ∷ [])
        exchange
      ≡ some (next, workflows))
    × (length workflows ≡ 3)
    × IsReady (view next)
submit_requests-Ends_example =
    submit_requests-Ends simple (order_in ∷ sale ∷ garbled ∷ []) exchange
      (omega int_laws, (omega int_laws, (omega int_laws, tt))) exchange-IsReady

abbrev first_user : User
first_user = record {
  api_key = "key";
  secret = "s3";
  user_id = "u1";
  account_snapshot = funded;
  max_requests = 10;
  window_ms = pos 1000;
}

abbrev set_up_here : Option Pipeline
unfolding set_up
set_up_here =
    set_up simple "BTC-USD" (whole 9) (whole 11) exchange.fee_schedule limits (first_user ∷ [])

abbrev opened : Pipeline
opened = elim set_up_here [ none ↦ exchange | some p ↦ p ]

set_up-IsReady_example : IsReady (view opened)
unfolding set_up make_pipeline configure_pipeline make_gateway make_risk_engine make_engine
    make_ring normalize_capacity bit_ceil_loop configure_market valid_config update_top_of_book
    lookup insert whole
set_up-IsReady_example =
    set_up-IsReady simple "BTC-USD" (whole 9) (whole 11) exchange.fee_schedule limits
      (first_user ∷ []) opened refl

abbrev garbled_answer : Pipeline × WorkflowResult
unfolding submit_request
garbled_answer = elim (submit_request simple garbled exchange) [
  | none ↦ (exchange, new_workflow)
  | some answer ↦ answer
]

submit_request-Untouched_example : Untouched exchange garbled_answer.0
unfolding submit_request after_route read_order route_request parse_forwarded_request parse_order
    parse_fields parse_key_values key_values_loop add_token cut route has_valid_request_shape
    has_valid_credentials expected_signature match_route first_match backend_available
    consume_rate_limit forward announced poll_forwarded_request push try_pop slot_of size_approx
    set_slot lookup emplace insert
submit_request-Untouched_example =
    submit_request-Untouched simple garbled exchange garbled_answer.0 garbled_answer.1 refl refl
