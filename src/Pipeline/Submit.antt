-- ===== src/Pipeline/Submit.antt =====
-- integration/exchange-pipeline/exchange_pipeline.cpp: `submit`, stage after stage. `none` is an
-- exception, undefined behaviour, or the end of a loop's fuel.
use collections.Prelude.{
  Bool, true, false, not, ◌&&◌, Option, none, some, List, [], ◌∷◌, if◌then◌else◌,
}
use collections.Matching.Types.{Trade}
use collections.Matching.Engine.{submit}
use collections.Clearing.Holds.{pending_outbox}
use collections.Gateway.{GatewayRequest, ForwardedRequest}
use collections.Pipeline.Types.{
  completed, WorkflowResult, new_workflow, ParsedOrder, Pipeline, Platform,
}
use collections.Pipeline.Orders.{to_matching_request}
use collections.Pipeline.Sync.{sync_resting_orders, refresh_market_reference}
use collections.Pipeline.Stages.{
  route_request, parse_forwarded_request, evaluate_risk_stage, reserve_order_hold,
  track_managed_order, with_market_events, handle_rejected_match,
}
use collections.Pipeline.Settling.{settle_trades, release_closed_orders}
use Prim.Native.String.{String}

unfoldable pub populate_market_outputs : Pipeline → WorkflowResult → WorkflowResult
populate_market_outputs p workflow = record (with_market_events p workflow) {
  outbox_messages = pending_outbox 32 p.clearing;
}

-- The end of `submit`.
unfoldable pub complete : Platform → Pipeline → WorkflowResult → Option (Pipeline × WorkflowResult)
unfolding populate_market_outputs
complete platform p workflow = elim (refresh_market_reference (sync_resting_orders platform p)) [
  | none ↦ none
  | some next ↦ some (next, populate_market_outputs next (record workflow { status = completed }))
]

-- What follows once the trades are settled.
unfoldable pub after_settlement :
    Platform → ParsedOrder → Pipeline → WorkflowResult → Option (Pipeline × WorkflowResult)
unfolding complete
after_settlement platform order p workflow =
    elim (release_closed_orders platform order p workflow) [
      | none ↦ none
      | some (closed, noted, false) ↦ some (closed, noted)
      | some (closed, noted, true) ↦ complete platform closed noted
    ]

abbrev pub has_no_trades : List Trade → Bool
has_no_trades [] = true
has_no_trades (trade ∷ trades) = false

-- What follows the answer of the book.
unfoldable pub after_match :
    Platform → ParsedOrder → String → Pipeline → WorkflowResult → Option (Pipeline × WorkflowResult)
unfolding after_settlement
after_match platform order hold_id p workflow =
    if not workflow.match_result.is_accepted && has_no_trades workflow.match_result.trades
    then handle_rejected_match platform order hold_id p workflow
    else elim (settle_trades platform workflow.match_result.trades order p workflow) [
      | none ↦ none
      | some (settled, noted, false) ↦ some (settled, noted)
      | some (settled, noted, true) ↦ after_settlement platform order settled noted
    ]

-- The order is held, tracked and put to the book.
unfoldable pub match_order :
    Platform → ParsedOrder → Pipeline → WorkflowResult → Option (Pipeline × WorkflowResult)
unfolding after_match
match_order platform order p workflow =
    let held = reserve_order_hold platform order p workflow in
    elim held.2 [
      | none ↦ some (held.0, held.1)
      | some hold_id ↦
          let tracked = track_managed_order order hold_id held.0 in
          elim (submit (to_matching_request order) tracked.matching_engine) [
            | none ↦ none
            | some (engine, result) ↦
                after_match platform order hold_id (record tracked { matching_engine = engine })
                  (record (held.1) { match_result = result; is_accepted = result.is_accepted })
          ]
    ]

-- The order that was read is checked and goes on.
unfoldable pub check_order :
    Platform → ParsedOrder → Pipeline → WorkflowResult → Option (Pipeline × WorkflowResult)
unfolding match_order
check_order platform order p workflow = elim (evaluate_risk_stage platform order p workflow) [
  | none ↦ none
  | some (checked, noted, false) ↦ some (checked, noted)
  | some (checked, noted, true) ↦ match_order platform order checked noted
]

-- The request that came through the gateway is read and goes on.
unfoldable pub read_order :
    Platform → ForwardedRequest → Pipeline → WorkflowResult → Option (Pipeline × WorkflowResult)
unfolding check_order
read_order platform forwarded p workflow =
    elim (parse_forwarded_request platform forwarded p workflow) [
      | none ↦ none
      | some (noted, none) ↦ some (p, noted)
      | some (noted, some order) ↦ check_order platform order p noted
    ]

-- What follows the gateway.
unfoldable pub after_route :
    Platform
    → Pipeline × WorkflowResult × Option ForwardedRequest
    → Option (Pipeline × WorkflowResult)
unfolding read_order
after_route platform (p, workflow, none) = some (p, workflow)
after_route platform (p, workflow, some forwarded) = read_order platform forwarded p workflow

unfoldable pub submit_request :
    Platform → GatewayRequest → Pipeline → Option (Pipeline × WorkflowResult)
unfolding after_route
submit_request platform request p = after_route platform (route_request request p new_workflow)
