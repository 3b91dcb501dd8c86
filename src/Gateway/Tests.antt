-- ===== src/Gateway/Tests.antt =====
-- Runs of the gateway, and its theorems at a concrete gateway.
use collections.Prelude.{
  ◌+◌, ◌≤◌, ◌≡◌, refl, arith, true, none, List, [], ◌∷◌, length, string_eq, ◌⊎◌,
}
use collections.Prelude.Int.{ℤ, pos}
use collections.Prelude.Dict.{lookup}
use collections.Prelude.Sorting.{insertion, insertion-IsSort}
use collections.MarketData.Broadcaster.{empty_broadcaster}
use collections.Ring.{Ring}
use collections.Ring.Drained.{IsDrained}
use collections.Gateway.Types.{
  GatewayRequest, ForwardedRequest, RouteConfig, Gateway, rest, fix, risk, market_data,
}
use collections.Gateway.Access.{match_route, recent}
use collections.Gateway.Sessions.{close_stale_sessions, live_session_count}
use collections.Gateway.Longest.{configure_all, LongestMatch, match_route-LongestMatch}
use collections.Gateway.Limits.{consume_all, consume_all-bounded}
use collections.Gateway.SessionLaws.{close_stale_sessions-counts, close_stale_sessions_again}
use collections.Gateway.Forwarding.{IsTurnedAway, IsForwarded, route-forwards}
use Prim.Native.String.{len}

abbrev no_requests : Ring ForwardedRequest
no_requests = record { capacity = 2; buffer = λ i. none; head = 0; tail = 0 }

abbrev bare : Gateway
bare = record {
  credentials = ("key", record { secret = "s3"; user_id = "u1" }) ∷ [];
  routes = [];
  user_limits = ("u1", record { max_requests = 2; window_ms = pos 10 }) ∷ [];
  user_windows = [];
  backend_health = [];
  sessions =
      (
        "a",
        record {
          protocol = fix;
          heartbeat_timeout_ms = pos 5;
          last_heartbeat_ms = pos 1;
          is_live = true;
        },
      )
      ∷ (
        "b",
        record {
          protocol = rest;
          heartbeat_timeout_ms = pos 50;
          last_heartbeat_ms = pos 1;
          is_live = true;
        },
      )
      ∷ [];
  ingress_queue = no_requests;
  gateway_broadcaster = empty_broadcaster;
}

abbrev orders : RouteConfig
orders = record { path_prefix = "/v1"; backend = risk; route_name = "orders" }

abbrev cancels : RouteConfig
cancels = record { path_prefix = "/v1/x"; backend = market_data; route_name = "cancels" }

match_route-LongestMatch_example :
    LongestMatch "/v1/x/7"
      (orders ∷ cancels ∷ [])
      (match_route "/v1/x/7" (configure_all insertion (orders ∷ cancels ∷ []) bare))
match_route-LongestMatch_example =
    match_route-LongestMatch insertion (orders ∷ cancels ∷ []) "/v1/x/7" bare
      (insertion-IsSort (λ (route : RouteConfig). len route.path_prefix)) refl

-- The third request comes too soon, the last one does not.
abbrev four_times : List ℤ
four_times = pos 1 ∷ pos 2 ∷ pos 3 ∷ pos 20 ∷ []

consume_all-bounded_example :
    length (
      recent
        (record { max_requests = 2; window_ms = pos 10 })
        (pos 20)
        (consume_all "u1" four_times bare).1)
    ≤ 2
unfolding lookup
consume_all-bounded_example =
    consume_all-bounded "u1" (record { max_requests = 2; window_ms = pos 10 }) four_times (pos 0)
      (pos 20) bare refl refl
      (omega arith, (omega arith, (omega arith, (omega arith, (omega arith, tt)))))

close_stale_sessions-counts_example :
    live_session_count (close_stale_sessions (pos 9) bare).0 + (close_stale_sessions (pos 9) bare).1
    ≡ live_session_count bare
close_stale_sessions-counts_example = close_stale_sessions-counts (pos 9) bare

close_stale_sessions_again_example :
    close_stale_sessions (pos 9) (close_stale_sessions (pos 9) bare).0
    ≡ ((close_stale_sessions (pos 9) bare).0, 0)
close_stale_sessions_again_example = close_stale_sessions_again (pos 9) bare

abbrev order_in : GatewayRequest
order_in = record {
  request_id = "r1";
  user_id = "u1";
  api_key = "key";
  signature = "key:s3:r1";
  path = "/v1/orders";
  payload = "side=buy";
  protocol = rest;
  timestamp_ms = pos 7;
}

abbrev one_route : Gateway
one_route = record bare { routes = orders ∷ [] }

no_requests-IsDrained : IsDrained no_requests
no_requests-IsDrained = record { level = refl; in_range = omega arith; roomy = omega arith }

route-forwards_example : IsTurnedAway order_in one_route ⊎ IsForwarded order_in one_route
route-forwards_example = route-forwards order_in one_route no_requests-IsDrained
