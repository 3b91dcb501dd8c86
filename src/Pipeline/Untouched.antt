-- ===== src/Pipeline/Untouched.antt =====
-- integration/exchange-pipeline: a request that is refused before the book leaves the book, the
-- balances and the tracked orders as they are.
use collections.Prelude.{
  ◌≡◌, refl, ◌∙◌, subst, true, false, Bool-cases, Option, none, some, Option-cases, string_eq, inl,
  inr, ◌⊎◌,
}
use collections.Matching.Engine.{submit}
use collections.Clearing.Holds.{freeze_quote, freeze_base}
use collections.Clearing.Messages.{operation_ok}
use collections.Clearing.Refusals.{freeze_quote-refused, freeze_base-refused}
use collections.Risk.Evaluate.{evaluate}
use collections.Gateway.Types.{GatewayRequest, ForwardedRequest}
use collections.Gateway.Route.{route, poll_forwarded_request}
use collections.Pipeline.Types.{
  risk_rejected, WorkflowResult, new_workflow, ParsedOrder, Pipeline, Platform,
}
use collections.Pipeline.Payload.{parse_order}
use collections.Pipeline.Orders.{
  is_buy, hold_id_for, reserve_amount, to_matching_request, to_risk_request,
}
use collections.Pipeline.Stages.{
  route_request, parse_forwarded_request, evaluate_risk_stage, reserve_order_hold,
  track_managed_order,
}
use collections.Pipeline.Submit.{
  after_match, match_order, check_order, read_order, after_route, submit_request,
}
use collections.Pipeline.Late.{is_early, IsLate, after_match-IsLate}

-- The same book, balances and tracked orders.
abbrev pub Untouched : Pipeline → Pipeline → Type 0
Untouched p q =
    (q.matching_engine ≡ p.matching_engine)
    × (q.clearing ≡ p.clearing)
    × (q.order_registry ≡ p.order_registry)

-- If there is an answer, it is a late one or nothing is touched.
abbrev IsClean : Pipeline → Option (Pipeline × WorkflowResult) → Type 0
IsClean p none = Unit
IsClean p (some (q, workflow)) = (is_early workflow.status ≡ false) ⊎ Untouched p q

late-IsClean :
    (p : Pipeline) (answer : Option (Pipeline × WorkflowResult)) → IsLate answer → IsClean p answer
late-IsClean p none late = tt
late-IsClean p (some (q, workflow)) late = inl late

-- No hold, nothing touched.
reserve_order_hold-Untouched :
    (platform : Platform) (order : ParsedOrder) (p : Pipeline) (workflow : WorkflowResult)
    → (reserve_order_hold platform order p workflow).2 ≡ none
    → Untouched p (reserve_order_hold platform order p workflow).0
unfolding reserve_order_hold
reserve_order_hold-Untouched platform order p workflow =
    let hold_id = hold_id_for order.order_id in
    let reserved = reserve_amount platform.fpu order p in
    elim (Bool-cases (is_buy order.matching_side)) [
      | inl e ↦
          let held = freeze_quote order.user_id hold_id reserved order.timestamp_ms p.clearing in
          elim (Bool-cases (operation_ok held.1)) [
            | inl f ↦ rw (e, f, reserve_order_hold) (λ h. absurd (cc h))
            | inr f ↦
                rw (e, f, reserve_order_hold)
                  (λ h. (
                    refl,
                    freeze_quote-refused order.user_id hold_id reserved order.timestamp_ms
                        p.clearing f,
                    refl,
                  ))
          ]
      | inr e ↦
          let held = freeze_base order.user_id hold_id reserved order.timestamp_ms p.clearing in
          elim (Bool-cases (operation_ok held.1)) [
            | inl f ↦ rw (e, f, reserve_order_hold) (λ h. absurd (cc h))
            | inr f ↦
                rw (e, f, reserve_order_hold)
                  (λ h. (
                    refl,
                    freeze_base-refused order.user_id hold_id reserved order.timestamp_ms p.clearing
                        f,
                    refl,
                  ))
          ]
    ]

match_order-IsClean :
    (platform : Platform) (order : ParsedOrder) (p : Pipeline) (workflow : WorkflowResult)
    → IsClean p (match_order platform order p workflow)
unfolding match_order
match_order-IsClean platform order p workflow =
    let held = reserve_order_hold platform order p workflow in
    elim (Option-cases held.2) [
      | inl refused ↦
          rw (refused, match_order)
            (inr (reserve_order_hold-Untouched platform order p workflow refused))
      | inr hold_id ↦
          let tracked = track_managed_order order hold_id.0 held.0 in
          elim (Option-cases (submit (to_matching_request order) tracked.matching_engine)) [
            | inl gone ↦ rw (hold_id.1, match_order) (rw (gone) tt)
            | inr answer ↦
                let next : Pipeline = record tracked { matching_engine = answer.0.0 } in
                let noted : WorkflowResult = record (held.1) {
                  match_result = answer.0.1;
                  is_accepted = answer.0.1.is_accepted;
                } in
                rw (hold_id.1, match_order)
                  (rw (answer.1) (
                    late-IsClean p (after_match platform order hold_id.0 next noted)
                      (after_match-IsLate platform order hold_id.0 next noted)))
          ]
    ]

-- What holds from a pipeline with the same book, balances and orders.
IsClean-from :
    (p q : Pipeline) (answer : Option (Pipeline × WorkflowResult))
    → Untouched p q
    → IsClean q answer
    → IsClean p answer
IsClean-from p q none same clean = tt
IsClean-from p q (some (r, workflow)) same (inl late) = inl late
IsClean-from p q (some (r, workflow)) same (inr (a, b, c)) =
    inr (a ∙ same.0, b ∙ same.1, c ∙ same.2)

check_order-IsClean :
    (platform : Platform) (order : ParsedOrder) (p : Pipeline) (workflow : WorkflowResult)
    → IsClean p (check_order platform order p workflow)
unfolding check_order evaluate_risk_stage
check_order-IsClean platform order p workflow =
    elim (Option-cases (evaluate platform.fpu (to_risk_request order) p.risk_engine)) [
      | inl gone ↦ rw (gone, check_order, evaluate_risk_stage) tt
      | inr ((engine, decision), run) ↦
          let next : Pipeline = record p { risk_engine = engine } in
          let noted : WorkflowResult = record workflow { risk_decision = decision } in
          elim (Bool-cases decision.is_accepted) [
            | inr e ↦
                let refused : WorkflowResult = record noted { status = risk_rejected } in
                let stage : evaluate_risk_stage platform order p workflow
                    ≡ some (next, refused, false) =
                  rw (run, evaluate_risk_stage) (rw (e) refl) in
                rw (stage, check_order) (inr (refl, refl, refl))
            | inl e ↦
                let stage : evaluate_risk_stage platform order p workflow
                    ≡ some (next, noted, true) =
                  rw (run, evaluate_risk_stage) (rw (e) refl) in
                rw (stage, check_order)
                  (IsClean-from p next (match_order platform order next noted) (refl, refl, refl)
                    (match_order-IsClean platform order next noted))
          ]
    ]

read_order-IsClean :
    (platform : Platform) (forwarded : ForwardedRequest) (p : Pipeline) (workflow : WorkflowResult)
    → IsClean p (read_order platform forwarded p workflow)
unfolding read_order parse_forwarded_request
read_order-IsClean platform forwarded p workflow =
    elim (Option-cases (parse_order platform forwarded)) [
      | inl gone ↦ rw (gone, read_order, parse_forwarded_request) tt
      | inr (none, run) ↦ rw (run, read_order, parse_forwarded_request) (inr (refl, refl, refl))
      | inr (some order, run) ↦
          rw (run, read_order, parse_forwarded_request)
            (check_order-IsClean platform order p workflow)
    ]

route_request-Untouched :
    (request : GatewayRequest) (p : Pipeline) (workflow : WorkflowResult)
    → Untouched p (route_request request p workflow).0
unfolding route_request
route_request-Untouched request p workflow =
    let routed = route request p.gateway in
    elim (Bool-cases routed.1.is_accepted) [
      | inr e ↦ rw (e, route_request) (refl, refl, refl)
      | inl e ↦ elim (Option-cases (poll_forwarded_request routed.0).1) [
        | inl gone ↦ rw (e, gone, route_request) (refl, refl, refl)
        | inr there ↦ rw (e, there.1, route_request) (refl, refl, refl)
      ]
    ]

after_route-IsClean :
    (platform : Platform) (p : Pipeline)
    (routed : Pipeline × WorkflowResult × Option ForwardedRequest)
    → Untouched p routed.0
    → IsClean p (after_route platform routed)
unfolding after_route
after_route-IsClean platform p (q, workflow, none) same = inr same
after_route-IsClean platform p (q, workflow, some forwarded) same =
    IsClean-from p q (read_order platform forwarded q workflow) same
      (read_order-IsClean platform forwarded q workflow)

early-Untouched :
    (p q : Pipeline) (workflow : WorkflowResult)
    → IsClean p (some (q, workflow))
    → is_early workflow.status ≡ true
    → Untouched p q
early-Untouched p q workflow (inl late) early = absurd (cc (late, early))
early-Untouched p q workflow (inr same) early = same

-- A request that is answered with a rejection by the gateway, the parser, the risk engine or clearing
-- leaves the book, the balances with their holds and journal, and the tracked orders as they are.
pub submit_request-Untouched :
    (platform : Platform) (request : GatewayRequest) (p q : Pipeline) (workflow : WorkflowResult)
    → submit_request platform request p ≡ some (q, workflow)
    → is_early workflow.status ≡ true
    → Untouched p q
unfolding submit_request
submit_request-Untouched platform request p q workflow run early =
    early-Untouched p q workflow
      (subst (IsClean p) run (
        after_route-IsClean platform p (route_request request p new_workflow)
          (route_request-Untouched request p new_workflow)))
      early
