-- ===== src/Gateway/Forwarding.antt =====
-- core-exchange/unified-access-gateway: which requests go through, and what is forwarded.
use collections.Prelude.{
  ◌≡◌, refl, sym, ◌∙◌, ap, subst, true, false, Bool-cases, none, some, Option-cases, inl, inr, ◌⊎◌,
}
use collections.Ring.{try_pop}
use collections.Ring.Drained.{
  IsDrained, one_in, taken_out, push-IsDrained, pop-one_in, taken_out-IsDrained, pop-IsDrained,
}
use collections.Gateway.Types.{
  risk, invalid_request, authentication_failed, unknown_route, circuit_open, rate_limited,
  GatewayRequest, ForwardedRequest, RouteResult, RouteConfig, Gateway,
}
use collections.Gateway.Access.{
  has_valid_request_shape, has_valid_credentials, match_route, backend_available,
  consume_rate_limit,
}
use collections.Gateway.Route.{
  make_forwarded_request, rejected_route, forward, announced, route, poll_forwarded_request,
}
use collections.Gateway.Passing.{Passes, credentials-Authentic, Authentic-credentials, limit_answer}

-- The answer is no, rightly, and there is nothing to forward.
abbrev pub IsTurnedAway : GatewayRequest → Gateway → Type 0
IsTurnedAway request g =
    ((route request g).1.is_accepted ≡ false)
    × ¬ ((at : RouteConfig) × Passes request at g)
    × IsDrained (route request g).0.ingress_queue
    × ((poll_forwarded_request (route request g).0).1 ≡ none)

-- The answer is yes, rightly, and there is one thing to forward.
abbrev pub IsSent : GatewayRequest → Gateway → Type 0
IsSent request g =
    (at : RouteConfig) × Passes request at g
    × ((route request g).1.is_accepted ≡ true)
    × IsDrained (poll_forwarded_request (route request g).0).0.ingress_queue
    × ((poll_forwarded_request (route request g).0).1
        ≡ some (make_forwarded_request request at.backend))
    × ((route request g).1.backend ≡ at.backend)

poll-empty : (g : Gateway) → IsDrained g.ingress_queue → (poll_forwarded_request g).1 ≡ none
unfolding poll_forwarded_request
poll-empty g d = ap (λ x. x.1) (pop-IsDrained g.ingress_queue d)

turned_away :
    (request : GatewayRequest) (g after : Gateway) (result : RouteResult)
    → IsDrained g.ingress_queue
    → route request g ≡ (after, result)
    → after.ingress_queue ≡ g.ingress_queue
    → result.is_accepted ≡ false
    → ¬ ((at : RouteConfig) × Passes request at g)
    → IsTurnedAway request g
turned_away request g after result d run same refused wrong =
    let drained = subst IsDrained (sym same) d in
    rw (run) (refused, wrong, drained, poll-empty after drained)

forward-drained :
    (request : GatewayRequest) (at : RouteConfig) (g : Gateway)
    → IsDrained g.ingress_queue
    → forward request at g
      ≡ announced (make_forwarded_request request at.backend) at (record g {
        ingress_queue = one_in (make_forwarded_request request at.backend) g.ingress_queue;
      })
unfolding forward
forward-drained request at g d =
    rw (push-IsDrained (make_forwarded_request request at.backend) g.ingress_queue d, forward) refl

poll-announced :
    (forwarded : ForwardedRequest) (at : RouteConfig) (g before : Gateway)
    → IsDrained before.ingress_queue
    → g.ingress_queue ≡ one_in forwarded before.ingress_queue
    → ((announced forwarded at g).1.is_accepted ≡ true)
      × IsDrained (poll_forwarded_request (announced forwarded at g).0).0.ingress_queue
      × ((poll_forwarded_request (announced forwarded at g).0).1 ≡ some forwarded)
      × ((announced forwarded at g).1.backend ≡ at.backend)
unfolding announced poll_forwarded_request
poll-announced forwarded at g before d same =
    let popped : try_pop g.ingress_queue
        ≡ (taken_out forwarded before.ingress_queue, some forwarded) =
      ap try_pop same ∙ pop-one_in forwarded before.ingress_queue d in
    (
      refl,
      subst IsDrained (sym (ap (λ x. x.0) popped))
          (taken_out-IsDrained forwarded before.ingress_queue d),
      ap (λ x. x.1) popped,
      refl,
    )

-- What is left once there is a route to a backend that is healthy.
routed :
    (request : GatewayRequest) (at : RouteConfig) (g : Gateway)
    → IsDrained g.ingress_queue
    → has_valid_request_shape request ≡ true
    → has_valid_credentials request g ≡ true
    → match_route request.path g ≡ some at
    → backend_available at.backend g ≡ true
    → IsTurnedAway request g ⊎ IsSent request g
unfolding route
routed request at g d shape authentic found healthy =
    let limited = limit_answer request g in
    let after = (consume_rate_limit request.user_id request.timestamp_ms g).0 in
    let drained : IsDrained after.ingress_queue = subst IsDrained (sym limited.same_queue) d in
    elim limited.answer [
      | inl within ↦
          let forwarded = make_forwarded_request request at.backend in
          let sent : Gateway = record after {
            ingress_queue = one_in forwarded after.ingress_queue;
          } in
          let done = poll-announced forwarded at sent after drained refl in
          let run : route request g ≡ announced forwarded at sent =
            rw (shape, authentic, found, route)
              (rw (healthy, within.0) (forward-drained request at after drained)) in
          inr (
            at,
            record {
              shape_ok = shape;
              authentic = credentials-Authentic request g authentic;
              routed = found;
              healthy = healthy;
              within = within.1;
            },
            rw (run) done.0,
            rw (run) done.1,
            rw (run) done.2,
            rw (run) done.3,
          )
      | inr beyond ↦ inl (
          turned_away request g after (rejected_route rate_limited at.backend) d
            (rw (shape, authentic, found, route) (rw (healthy, beyond.0) refl)) limited.same_queue
            refl (λ (other, passes). beyond.1 passes.within))
    ]

-- The two ways a request goes.
pub route-IsSent :
    (request : GatewayRequest) (g : Gateway)
    → IsDrained g.ingress_queue
    → IsTurnedAway request g ⊎ IsSent request g
unfolding route rejected_route
route-IsSent request g d = elim (Bool-cases (has_valid_request_shape request)) [
  | inr bad ↦ inl (
      turned_away request g g (rejected_route invalid_request risk) d (rw (bad, route) refl) refl
        refl (λ (at, passes). absurd (cc (bad, passes.shape_ok))))
  | inl shape ↦ elim (Bool-cases (has_valid_credentials request g)) [
    | inr forged ↦ inl (
        turned_away request g g (rejected_route authentication_failed risk) d
          (rw (shape, forged, route) refl) refl refl
          (λ (at, passes). absurd (cc (forged, Authentic-credentials request g passes.authentic))))
    | inl authentic ↦ elim (Option-cases (match_route request.path g)) [
      | inl lost ↦ inl (
          turned_away request g g (rejected_route unknown_route risk) d
            (rw (shape, authentic, lost, route) refl) refl refl
            (λ (at, passes). absurd (cc (lost, passes.routed))))
      | inr at ↦ elim (Bool-cases (backend_available at.0.backend g)) [
        | inr ill ↦ inl (
            turned_away request g g (rejected_route circuit_open at.0.backend) d
              (rw (shape, authentic, at.1, route) (rw (ill) refl)) refl refl
              (λ (other, passes). absurd (
                cc (
                  ill,
                  subst (λ x. backend_available x.backend g ≡ true)
                      (some_path (sym passes.routed ∙ at.1)) passes.healthy,
                ))))
        | inl healthy ↦ routed request at.0 g d shape authentic at.1 healthy
      ]
    ]
  ]
]
  where
    some_path : {x y : RouteConfig} → some x ≡ some y → x ≡ y
    some_path e = cc e

-- The fields of a request and the backend of a route, as they are forwarded.
pub record IsCopy (request : GatewayRequest) (at : RouteConfig) (forwarded : ForwardedRequest)
    : Type 0 where
  pub request_id_eq : forwarded.request_id ≡ request.request_id
  pub user_id_eq : forwarded.user_id ≡ request.user_id
  pub path_eq : forwarded.path ≡ request.path
  pub payload_eq : forwarded.payload ≡ request.payload
  pub protocol_eq : forwarded.protocol ≡ request.protocol
  pub timestamp_eq : forwarded.timestamp_ms ≡ request.timestamp_ms
  pub backend_eq : forwarded.backend ≡ at.backend

-- The answer is yes, rightly, and a copy of the request is what is forwarded.
abbrev pub IsForwarded : GatewayRequest → Gateway → Type 0
IsForwarded request g =
    (at : RouteConfig) × (forwarded : ForwardedRequest) × Passes request at g
    × ((route request g).1.is_accepted ≡ true)
    × ((route request g).1.backend ≡ at.backend)
    × IsDrained (poll_forwarded_request (route request g).0).0.ingress_queue
    × ((poll_forwarded_request (route request g).0).1 ≡ some forwarded)
    × IsCopy request at forwarded

-- By a gateway whose queue is empty, a request is refused exactly if it does not pass: nothing is
-- there to forward then. If it passes it is accepted, for the route that matches, and polling gives
-- its id, user, path, payload, protocol and time for that route's backend. The queue is empty again after that.
pub route-forwards :
    (request : GatewayRequest) (g : Gateway)
    → IsDrained g.ingress_queue
    → IsTurnedAway request g ⊎ IsForwarded request g
unfolding make_forwarded_request
route-forwards request g d = elim (route-IsSent request g d) [
  | inl away ↦ inl away
  | inr (at, passes, yes_says, drained, popped, backend) ↦ inr (
    at,
    make_forwarded_request request at.backend,
    passes,
    yes_says,
    backend,
    drained,
    popped,
    record {
      request_id_eq = refl;
      user_id_eq = refl;
      path_eq = refl;
      payload_eq = refl;
      protocol_eq = refl;
      timestamp_eq = refl;
      backend_eq = refl;
    },
  )
]
