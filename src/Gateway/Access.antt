-- ===== src/Gateway/Access.antt =====
-- core-exchange/unified-access-gateway/unified_access_gateway.cpp: what is configured, and the tests of
-- a request against it.
use collections.Prelude.{
  ℕ, Bool, true, false, ◌&&◌, not, Option, none, some, List, [], ◌∷◌, ◌++◌, keep_if, length, leb,
  if◌then◌else◌, ◌==◌, string_eq,
}
use collections.Prelude.Int.{ℤ, pos, ◌-ℤ◌, ltb_ℤ}
use collections.Prelude.Dict.{lookup, insert}
use collections.Prelude.Sorting.{Sort, larger}
use collections.Prelude.Text.{is_empty, ◌<>◌}
use collections.Gateway.Types.{Backend, GatewayRequest, RouteConfig, RateLimit, Gateway, backend_eq}
use text.Mathlib.Text.{starts_with}
use Prim.Native.String.{String, len}

unfoldable pub register_credential : String → String → String → Gateway → Gateway
register_credential api_key secret user_id g = record g {
  credentials = insert api_key (record { secret = secret; user_id = user_id }) g.credentials;
}

-- The comparison of `configure_route`.
abbrev pub longer_prefix : RouteConfig → RouteConfig → Bool
longer_prefix left right = larger (λ (route : RouteConfig). len route.path_prefix) left right

unfoldable pub configure_route : Sort RouteConfig → String → Backend → String → Gateway → Gateway
configure_route std path_prefix backend route_name g =
    let added : RouteConfig = record {
      path_prefix = path_prefix;
      backend = backend;
      route_name = route_name;
    } in
    record g { routes = std.sort longer_prefix (g.routes ++ added ∷ []) }

unfoldable pub set_user_rate_limit : String → ℕ → ℤ → Gateway → Gateway
set_user_rate_limit user_id max_requests window_ms g = record g {
  user_limits =
      insert user_id (record { max_requests = max_requests; window_ms = window_ms }) g.user_limits;
}

unfoldable pub set_backend_health : Backend → Bool → Gateway → Gateway
set_backend_health backend is_healthy g = record g {
  backend_health = insert backend is_healthy g.backend_health;
}

unfoldable pub expected_signature : String → String → String → String
expected_signature api_key secret request_id = api_key <> ":" <> secret <> ":" <> request_id

unfoldable pub has_valid_request_shape : GatewayRequest → Bool
has_valid_request_shape request =
    not (is_empty request.request_id)
    && not (is_empty request.user_id)
    && not (is_empty request.api_key)
    && not (is_empty request.path)
    && ltb_ℤ (pos 0) request.timestamp_ms

unfoldable pub has_valid_credentials : GatewayRequest → Gateway → Bool
unfolding expected_signature
has_valid_credentials request g = elim (lookup request.api_key g.credentials) [
  | none ↦ false
  | some credential ↦
      (credential.user_id == request.user_id)
      && (request.signature
          == expected_signature request.api_key credential.secret request.request_id)
]

unfoldable pub backend_available : Backend → Gateway → Bool
backend_available backend g = elim (lookup backend g.backend_health) [
  | none ↦ true
  | some is_healthy ↦ is_healthy
]

-- `user_windows_[user_id]`, which is empty where there is no entry.
unfoldable pub user_window : String → Gateway → List ℤ
user_window user_id g = elim (lookup user_id g.user_windows) [ none ↦ [] | some times ↦ times ]

-- The times that `std::remove_if` leaves.
unfoldable pub recent : RateLimit → ℤ → List ℤ → List ℤ
recent limit timestamp_ms times =
    keep_if (λ (time : ℤ). not (ltb_ℤ time (timestamp_ms -ℤ limit.window_ms))) times

unfoldable pub consume_rate_limit : String → ℤ → Gateway → Gateway × Bool
unfolding user_window recent
consume_rate_limit user_id timestamp_ms g = elim (lookup user_id g.user_limits) [
  | none ↦ (g, true)
  | some limit ↦
      let kept = recent limit timestamp_ms (user_window user_id g) in
      if leb limit.max_requests (length kept)
      then (record g { user_windows = insert user_id kept g.user_windows }, false)
      else (
        record g { user_windows = insert user_id (kept ++ timestamp_ms ∷ []) g.user_windows },
        true,
      )
]

-- The loop of `match_route`.
unfoldable pub first_match : String → List RouteConfig → Option RouteConfig
first_match path [] = none
first_match path (route ∷ routes) =
    if starts_with path route.path_prefix then some route else first_match path routes

unfoldable pub match_route : String → Gateway → Option RouteConfig
unfolding first_match
match_route path g = first_match path g.routes
