-- ===== src/Gateway/Route.antt =====
-- core-exchange/unified-access-gateway/unified_access_gateway.cpp: the way of a request.
use collections.Prelude.{ℕ, true, false, Option, none, some, List, if◌then◌else◌, not}
use collections.Prelude.Text.{◌<>◌}
use collections.MarketData.{BroadcastMessage}
use collections.MarketData.Broadcaster.{publish, replay}
use collections.Ring.{push, try_pop, size_approx}
use collections.Gateway.Types.{
  Backend, risk, GatewayReject, no_reject, invalid_request, authentication_failed, rate_limited,
  unknown_route, circuit_open, queue_full, GatewayRequest, ForwardedRequest, RouteResult,
  RouteConfig, Gateway,
}
use collections.Gateway.Access.{
  has_valid_request_shape, has_valid_credentials, match_route, backend_available,
  consume_rate_limit,
}
use Prim.Native.String.{String}

unfoldable pub make_forwarded_request : GatewayRequest → Backend → ForwardedRequest
make_forwarded_request request backend = record {
  request_id = request.request_id;
  user_id = request.user_id;
  path = request.path;
  payload = request.payload;
  backend = backend;
  protocol = request.protocol;
  timestamp_ms = request.timestamp_ms;
}

unfoldable pub make_accepted_route_result : RouteConfig → Gateway → RouteResult
make_accepted_route_result route g = record {
  is_accepted = true;
  reject_reason = no_reject;
  backend = route.backend;
  route_name = route.route_name;
  queued_requests = size_approx g.ingress_queue;
}

-- A `RouteResult` with the default of the other members.
unfoldable pub rejected_route : GatewayReject → Backend → RouteResult
rejected_route reason backend = record {
  is_accepted = false;
  reject_reason = reason;
  backend = backend;
  route_name = "";
  queued_requests = 0;
}

unfoldable pub route_event_payload : ForwardedRequest → String → String
route_event_payload request route_name =
    request.request_id <> ":" <> route_name <> ":" <> request.path

-- The event of a request that is in the queue, and the answer.
unfoldable pub announced : ForwardedRequest → RouteConfig → Gateway → Gateway × RouteResult
unfolding make_accepted_route_result route_event_payload
announced forwarded at g =
    let payload = route_event_payload forwarded at.route_name in
    let published = publish "gateway.routes" payload g.gateway_broadcaster in
    let sent : Gateway = record g { gateway_broadcaster = published.0 } in
    (sent, make_accepted_route_result at sent)

-- The push and the event of a request that passed the checks.
unfoldable pub forward : GatewayRequest → RouteConfig → Gateway → Gateway × RouteResult
unfolding make_forwarded_request rejected_route announced
forward request at g =
    let forwarded = make_forwarded_request request at.backend in
    let pushed = push forwarded g.ingress_queue in
    if pushed.1
    then announced forwarded at (record g { ingress_queue = pushed.0 })
    else (g, rejected_route queue_full at.backend)

unfoldable pub route : GatewayRequest → Gateway → Gateway × RouteResult
unfolding forward
route request g =
    if not (has_valid_request_shape request)
    then (g, rejected_route invalid_request risk)
    else if not (has_valid_credentials request g)
    then (g, rejected_route authentication_failed risk)
    else elim (match_route request.path g) [
      | none ↦ (g, rejected_route unknown_route risk)
      | some at ↦
          if not (backend_available at.backend g)
          then (g, rejected_route circuit_open at.backend)
          else let limited = consume_rate_limit request.user_id request.timestamp_ms g in
            if not limited.1
            then (limited.0, rejected_route rate_limited at.backend)
            else forward request at limited.0
    ]

unfoldable pub poll_forwarded_request : Gateway → Gateway × Option ForwardedRequest
poll_forwarded_request g =
    let popped = try_pop g.ingress_queue in (record g { ingress_queue = popped.0 }, popped.1)

unfoldable pub replay_route_events : ℕ → Gateway → List BroadcastMessage
replay_route_events sequence_after g = replay "gateway.routes" sequence_after g.gateway_broadcaster
