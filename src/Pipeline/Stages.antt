-- ===== src/Pipeline/Stages.antt =====
-- integration/exchange-pipeline/exchange_pipeline.cpp: the stages before an order is matched, and what
-- follows a rejection by the book. A stage answers with the pipeline, the workflow so far, and what
-- it hands on. `none` is an exception or the end of the fuel.
use collections.Prelude.{
  ℕ, ◌^◌, Bool, true, false, not, Option, none, some, if◌then◌else◌, string_eq,
}
use collections.Prelude.Int.{ℤ, pos, ◌+ℤ◌, ltb_ℤ}
use collections.Prelude.Dict.{insert, erase}
use collections.Prelude.Text.{◌<>◌}
use collections.Matching.Engine.{replay_market_data}
use collections.Clearing.{ClearingStatus}
use collections.Clearing.Holds.{freeze_quote, freeze_base}
use collections.Clearing.Messages.{operation_ok, status_message}
use collections.Risk.{RiskDecision, invalid_request}
use collections.Risk.Evaluate.{evaluate}
use collections.Gateway.{GatewayRequest, ForwardedRequest}
use collections.Gateway.Route.{route, poll_forwarded_request, replay_route_events}
use collections.Pipeline.Types.{
  route_rejected, parse_rejected, risk_rejected, clearing_rejected, matching_rejected,
  workflow_invariant_violation, WorkflowResult, ParsedOrder, Pipeline, Platform,
}
use collections.Pipeline.Payload.{parse_order}
use collections.Pipeline.Orders.{
  is_buy, to_risk_reject_reason, to_risk_request, hold_id_for, reserve_amount,
}
use collections.Pipeline.Sync.{sync_account_state, sync_resting_orders, release_residual_hold}
use Prim.Native.String.{String}

unfoldable pub route_request :
    GatewayRequest → Pipeline → WorkflowResult → Pipeline × WorkflowResult × Option ForwardedRequest
route_request request p workflow =
    let (gateway, result) = route request p.gateway in
    let noted : WorkflowResult = record workflow {
      route_result = result;
      route_events = replay_route_events 0 gateway;
    } in
    if not result.is_accepted
    then (record p { gateway = gateway }, record noted { status = route_rejected }, none)
    else let (polled, forwarded) = poll_forwarded_request gateway in
      let next : Pipeline = record p { gateway = polled } in
      elim forwarded [
        | none ↦ (
          next,
          record noted {
            status = workflow_invariant_violation;
            error_detail = "gateway_forwarded_request_missing";
          },
          none,
        )
        | some found ↦ (next, noted, some found)
      ]

-- The decision of a payload that cannot be read.
unfoldable pub unread : ForwardedRequest → Pipeline → RiskDecision
unread request p = record {
  is_accepted = false;
  reject_reason = invalid_request;
  rule_name = "request_parse";
  order_id = "";
  user_id = request.user_id;
  symbol = p.symbol;
  reference_price = pos 0;
  estimated_notional = pos 0;
  timestamp_ms = request.timestamp_ms;
}

unfoldable pub parse_forwarded_request :
    Platform
    → ForwardedRequest
    → Pipeline
    → WorkflowResult
    → Option (WorkflowResult × Option ParsedOrder)
unfolding unread
parse_forwarded_request platform request p workflow = elim (parse_order platform request) [
  | none ↦ none
  | some none ↦
      some (record workflow { status = parse_rejected; risk_decision = unread request p }, none)
  | some (some order) ↦ some (workflow, some order)
]

unfoldable pub evaluate_risk_stage :
    Platform → ParsedOrder → Pipeline → WorkflowResult → Option (Pipeline × WorkflowResult × Bool)
evaluate_risk_stage platform order p workflow =
    elim (evaluate platform.fpu (to_risk_request order) p.risk_engine) [
      | none ↦ none
      | some (engine, decision) ↦
          let next : Pipeline = record p { risk_engine = engine } in
          let noted : WorkflowResult = record workflow { risk_decision = decision } in
          some (
            if not decision.is_accepted
            then (next, record noted { status = risk_rejected }, false)
            else (next, noted, true))
    ]

-- The workflow of an order that clearing refused.
unfoldable pub refused_hold : ClearingStatus → ParsedOrder → WorkflowResult → WorkflowResult
refused_hold status order workflow = record workflow {
  status = clearing_rejected;
  error_detail = status_message status;
  risk_decision = record (workflow.risk_decision) {
    is_accepted = false;
    reject_reason = to_risk_reject_reason status order.matching_side;
    rule_name = "clearing_hold_reservation";
  };
}

unfoldable pub reserve_order_hold :
    Platform → ParsedOrder → Pipeline → WorkflowResult → Pipeline × WorkflowResult × Option String
unfolding refused_hold
reserve_order_hold platform order p workflow =
    let hold_id = hold_id_for order.order_id in
    let reserved = reserve_amount platform.fpu order p in
    let (clearing, status) =
      if is_buy order.matching_side
      then freeze_quote order.user_id hold_id reserved order.timestamp_ms p.clearing
      else freeze_base order.user_id hold_id reserved order.timestamp_ms p.clearing in
    let next : Pipeline = record p { clearing = clearing } in
    if not (operation_ok status)
    then (next, refused_hold status order workflow, none)
    else (next, workflow, some hold_id)

unfoldable pub track_managed_order : ParsedOrder → String → Pipeline → Pipeline
track_managed_order order hold_id p =
    let synced = sync_account_state order.user_id p in
    record synced {
      order_registry =
          insert order.order_id
            (record {
              user_id = order.user_id;
              symbol = order.symbol;
              side = order.matching_side;
              hold_id = hold_id;
            })
            synced.order_registry;
    }

-- The events of the market, as both ends of `submit` take them.
unfoldable pub with_market_events : Pipeline → WorkflowResult → WorkflowResult
with_market_events p workflow = record workflow {
  trade_events = replay_market_data ("trades." <> p.symbol) 0 p.matching_engine;
  depth_events = replay_market_data ("depth." <> p.symbol) 0 p.matching_engine;
}

-- `timestamp_ms + n` in `std::int64_t`; `none` is the undefined behaviour of an overflow.
unfoldable pub plus_ms : ℤ → ℕ → Option ℤ
plus_ms timestamp_ms n =
    if ltb_ℤ (timestamp_ms +ℤ pos n) (pos (2 ^ 63)) then some (timestamp_ms +ℤ pos n) else none

-- What follows the sum of the times.
unfoldable pub release_rejected :
    Platform → ParsedOrder → String → ℤ → Pipeline → WorkflowResult → Pipeline × WorkflowResult
unfolding with_market_events
release_rejected platform order hold_id later p workflow =
    let (released, status) = release_residual_hold hold_id later p in
    if not (operation_ok status)
    then (
      released,
      record workflow {
        status = workflow_invariant_violation;
        error_detail = status_message status;
      },
    )
    else let forgotten : Pipeline = record released {
      order_registry = erase order.order_id released.order_registry;
    } in
      let synced = sync_resting_orders platform (sync_account_state order.user_id forgotten) in
      (synced, with_market_events synced (record workflow { status = matching_rejected }))

unfoldable pub handle_rejected_match :
    Platform → ParsedOrder → String → Pipeline → WorkflowResult → Option (Pipeline × WorkflowResult)
unfolding release_rejected plus_ms
handle_rejected_match platform order hold_id p workflow = elim (plus_ms order.timestamp_ms 1) [
  | none ↦ none
  | some later ↦ some (release_rejected platform order hold_id later p workflow)
]
