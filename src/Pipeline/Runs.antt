-- ===== src/Pipeline/Runs.antt =====
-- integration/exchange-pipeline: requests one after the other.
use collections.Prelude.{
  ◌≡◌, refl, sym, ◌∙◌, ap, subst, true, false, Bool-cases, Option, none, some, Option-cases, List,
  [], ◌∷◌, string_eq, inl, inr, All, length, suc,
}
use collections.Prelude.Dict.{lookup}
use collections.Ring.Drained.{IsDrained}
use collections.Matching.Trades.{submit_returns}
use collections.Risk.AuditLaws.{evaluate-Audits}
use collections.Gateway.Types.{GatewayRequest, ForwardedRequest, Gateway}
use collections.Gateway.Route.{
  make_forwarded_request, route, poll_forwarded_request, replay_route_events,
}
use collections.Gateway.Forwarding.{route-IsSent}
use collections.Pipeline.Types.{
  route_rejected, risk_rejected, parse_rejected, WorkflowResult, new_workflow, ParsedOrder,
  Pipeline, Platform,
}
use collections.Pipeline.Payload.{parse_order, parse_fields}
use collections.Pipeline.PayloadLaws.{parse_key_values-returns, parse_fields-timestamp}
use collections.Pipeline.Orders.{to_matching_request, to_risk_request}
use collections.Pipeline.Stages.{
  route_request, unread, parse_forwarded_request, evaluate_risk_stage, reserve_order_hold,
  track_managed_order,
}
use collections.Pipeline.Submit.{match_order, check_order, read_order, after_route, submit_request}
use collections.Pipeline.Running.{IsReady, Ends, same_view-Ends, after_match-Ends}
use collections.Pipeline.Views.{view}
use collections.Pipeline.StageViews.{IsTimely, reserve_order_hold-view, track_managed_order-view}

match_order-Ends :
    (platform : Platform) (order : ParsedOrder) (p : Pipeline) (workflow : WorkflowResult)
    → IsTimely order.timestamp_ms
    → IsReady (view p)
    → Ends (match_order platform order p workflow)
unfolding match_order
match_order-Ends platform order p workflow timely ready =
    let held = reserve_order_hold platform order p workflow in
    let same = reserve_order_hold-view platform order p workflow in
    elim (Option-cases held.2) [
      | inl refused ↦ rw (refused, match_order) (same_view-Ends (view p) held.0 held.1 ready same)
      | inr hold_id ↦
          let tracked = track_managed_order order hold_id.0 held.0 in
          let kept : view tracked ≡ view p =
            track_managed_order-view order hold_id.0 held.0 ∙ same in
          let still : IsReady (view tracked) = subst IsReady (sym kept) ready in
          let (books, result, run, ok) =
            submit_returns (to_matching_request order) tracked.matching_engine still.books_ok in
          let next : Pipeline = record tracked { matching_engine = books } in
          let noted : WorkflowResult = record (held.1) {
            match_result = result;
            is_accepted = result.is_accepted;
          } in
          rw (hold_id.1, match_order)
            (rw (run) (
              after_match-Ends platform order hold_id.0 next noted timely (record {
                ingress_drained = still.ingress_drained;
                audit_drained = still.audit_drained;
                books_ok = ok;
                market_known = still.market_known;
              })))
    ]

check_order-Ends :
    (platform : Platform) (order : ParsedOrder) (p : Pipeline) (workflow : WorkflowResult)
    → IsTimely order.timestamp_ms
    → IsReady (view p)
    → Ends (check_order platform order p workflow)
unfolding check_order evaluate_risk_stage
check_order-Ends platform order p workflow timely ready =
    let (engine, decision, run, audits) =
      evaluate-Audits platform.fpu (to_risk_request order) p.risk_engine ready.audit_drained in
    let next : Pipeline = record p { risk_engine = engine } in
    let noted : WorkflowResult = record workflow { risk_decision = decision } in
    let still : IsReady (view next) = record {
      ingress_drained = ready.ingress_drained;
      audit_drained = audits.1;
      books_ok = ready.books_ok;
      market_known = (ready.market_known.0, ap (lookup p.symbol) audits.2 ∙ ready.market_known.1);
    } in
    elim (Bool-cases decision.is_accepted) [
      | inr e ↦
          let refused : WorkflowResult = record noted { status = risk_rejected } in
          let stage : evaluate_risk_stage platform order p workflow ≡ some (next, refused, false) =
            rw (run, evaluate_risk_stage) (rw (e) refl) in
          rw (stage, check_order) (same_view-Ends (view next) next refused still refl)
      | inl e ↦
          let stage : evaluate_risk_stage platform order p workflow ≡ some (next, noted, true) =
            rw (run, evaluate_risk_stage) (rw (e) refl) in
          rw (stage, check_order) (match_order-Ends platform order next noted timely still)
    ]

read_order-Ends :
    (platform : Platform) (forwarded : ForwardedRequest) (p : Pipeline) (workflow : WorkflowResult)
    → IsTimely forwarded.timestamp_ms
    → IsReady (view p)
    → Ends (read_order platform forwarded p workflow)
unfolding read_order parse_forwarded_request parse_order
read_order-Ends platform forwarded p workflow timely ready =
    let (values, run) = parse_key_values-returns forwarded.payload in
    elim (Option-cases (parse_fields platform forwarded values)) [
      | inl unreadable ↦
          rw (run, unreadable, read_order, parse_forwarded_request, parse_order)
            (same_view-Ends (view p) p
              (record workflow { status = parse_rejected; risk_decision = unread forwarded p })
              ready refl)
      | inr order ↦
          rw (run, order.1, read_order, parse_forwarded_request, parse_order)
            (check_order-Ends platform order.0 p workflow
              (subst IsTimely
                (sym (parse_fields-timestamp platform forwarded values order.0 order.1)) timely)
              ready)
    ]

submit_request-Ends :
    (platform : Platform) (request : GatewayRequest) (p : Pipeline)
    → IsTimely request.timestamp_ms
    → IsReady (view p)
    → Ends (submit_request platform request p)
unfolding submit_request after_route route_request make_forwarded_request
submit_request-Ends platform request p timely ready =
    elim (route-IsSent request p.gateway ready.ingress_drained) [
      | inl away ↦
          let next : Pipeline = record p { gateway = (route request p.gateway).0 } in
          let workflow : WorkflowResult = record new_workflow {
            status = route_rejected;
            route_result = (route request p.gateway).1;
            route_events = replay_route_events 0 (route request p.gateway).0;
          } in
          let stage : route_request request p new_workflow ≡ (next, workflow, none) =
            rw (away.0, route_request) refl in
          subst (λ x. Ends (after_route platform x)) (sym stage)
            (same_view-Ends (view next) next workflow
              (ready_with (route request p.gateway).0 away.2) refl)
      | inr (at, passes, yes_says, drained, popped, backend) ↦
          let polled = poll_forwarded_request (route request p.gateway).0 in
          let next : Pipeline = record p { gateway = polled.0 } in
          let workflow : WorkflowResult = record new_workflow {
            route_result = (route request p.gateway).1;
            route_events = replay_route_events 0 (route request p.gateway).0;
          } in
          let forwarded = make_forwarded_request request at.backend in
          let stage : route_request request p new_workflow ≡ (next, workflow, some forwarded) =
            rw (yes_says, popped, route_request) refl in
          subst (λ x. Ends (after_route platform x)) (sym stage)
            (read_order-Ends platform forwarded next workflow timely (ready_with polled.0 drained))
    ]
  where
    ready_with :
        (gateway : Gateway)
        → IsDrained gateway.ingress_queue
        → IsReady (view (record p { gateway = gateway }))
    ready_with gateway drained = record {
      ingress_drained = drained;
      audit_drained = ready.audit_drained;
      books_ok = ready.books_ok;
      market_known = ready.market_known;
    }

-- Requests one after the other, with the workflows.
unfoldable pub submit_requests :
    Platform → List GatewayRequest → Pipeline → Option (Pipeline × List WorkflowResult)
submit_requests platform [] p = some (p, [])
submit_requests platform (request ∷ requests) p = elim (submit_request platform request p) [
  | none ↦ none
  | some (next, workflow) ↦ elim (submit_requests platform requests next) [
    | none ↦ none
    | some (last, workflows) ↦ some (last, workflow ∷ workflows)
  ]
]

-- Requests to a pipeline whose queues are empty, whose books are well formed and whose market is
-- configured, one after the other, whatever is in them, if the numbers in them are read as finite
-- ones and their times can grow by two milliseconds: each is answered, with no exception, no order,
-- hold or market that is missing where it is followed, no overflow as holds are released, and no loop
-- that goes on for ever; and the pipeline is as it has to be for the next one.
pub submit_requests-Ends :
    (platform : Platform) (requests : List GatewayRequest) (p : Pipeline)
    → All (λ (request : GatewayRequest). IsTimely request.timestamp_ms) requests
    → IsReady (view p)
    → (next : Pipeline) × (workflows : List WorkflowResult) × (submit_requests platform requests p
        ≡ some (next, workflows))
      × (length workflows ≡ length requests)
      × IsReady (view next)
unfolding submit_requests
submit_requests-Ends platform [] p timely ready = (p, [], refl, refl, ready)
submit_requests-Ends platform (request ∷ requests) p timely ready =
    let (middle, workflow, run, still) = submit_request-Ends platform request p timely.0 ready in
    let (last, workflows, runs, as_many, at_last) =
      submit_requests-Ends platform requests middle timely.1 still in
    (last, workflow ∷ workflows, rw (run, runs, submit_requests) refl, ap suc as_many, at_last)
