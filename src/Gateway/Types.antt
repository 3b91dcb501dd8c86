-- ===== src/Gateway/Types.antt =====
-- The types of core-exchange/unified-access-gateway, and the state of the gateway.
use collections.Prelude.{
  ℕ, zero, suc, Bool, true, Option, none, some, List, [], Eq, nat_beq, nat_beq_iff, ◌≡◌, ◌↔◌, refl,
  ap, sym, ◌∙◌,
}
use collections.Prelude.Int.{ℤ}
use collections.Prelude.Dict.{Dict, insert}
use collections.MarketData.Broadcaster.{Broadcaster, empty_broadcaster}
use collections.Ring.{Ring, make_ring}
use Prim.Native.String.{String}

pub data Protocol : Type 0 where
  rest web_socket fix : Protocol

pub data Backend : Type 0 where
  risk matching clearing market_data : Backend

pub data GatewayReject : Type 0 where
  no_reject invalid_request authentication_failed rate_limited unknown_route : GatewayReject
  circuit_open queue_full : GatewayReject

pub record GatewayRequest : Type 0 where
  pub request_id : String
  pub user_id : String
  pub api_key : String
  pub signature : String
  pub path : String
  pub payload : String
  pub protocol : Protocol
  pub timestamp_ms : ℤ

pub record ForwardedRequest : Type 0 where
  pub request_id : String
  pub user_id : String
  pub path : String
  pub payload : String
  pub backend : Backend
  pub protocol : Protocol
  pub timestamp_ms : ℤ

pub record RouteResult : Type 0 where
  pub is_accepted : Bool
  pub reject_reason : GatewayReject
  pub backend : Backend
  pub route_name : String
  pub queued_requests : ℕ

pub record Credential : Type 0 where
  pub secret : String
  pub user_id : String

pub record RouteConfig : Type 0 where
  pub path_prefix : String
  pub backend : Backend
  pub route_name : String

pub record RateLimit : Type 0 where
  pub max_requests : ℕ
  pub window_ms : ℤ

pub record SessionState : Type 0 where
  pub protocol : Protocol
  pub heartbeat_timeout_ms : ℤ
  pub last_heartbeat_ms : ℤ
  pub is_live : Bool

abbrev pub backend_code : Backend → ℕ
backend_code risk = 0
backend_code matching = 1
backend_code clearing = 2
backend_code market_data = 3

abbrev backend_of : ℕ → Backend
backend_of zero = risk
backend_of (suc zero) = matching
backend_of (suc (suc zero)) = clearing
backend_of _ = market_data

backend_of-code : (b : Backend) → backend_of (backend_code b) ≡ b
backend_of-code risk = refl
backend_of-code matching = refl
backend_of-code clearing = refl
backend_of-code market_data = refl

pub backend_iff : (b c : Backend) → (nat_beq (backend_code b) (backend_code c) ≡ true) ↔ (b ≡ c)
backend_iff b c = (
  λ h.
      sym (backend_of-code b)
      ∙ ap backend_of ((nat_beq_iff (backend_code b) (backend_code c)).0 h)
      ∙ backend_of-code c,
  λ e. (nat_beq_iff (backend_code b) (backend_code c)).1 (ap backend_code e),
)

instance abbrev pub backend_eq : Eq Backend
backend_eq = record {
  same = λ b c. nat_beq (backend_code b) (backend_code c);
  same_iff = backend_iff;
}

pub record Gateway : Type 0 where
  pub credentials : Dict String Credential
  pub routes : List RouteConfig
  pub user_limits : Dict String RateLimit
  pub user_windows : Dict String (List ℤ)
  pub backend_health : Dict Backend Bool
  pub sessions : Dict String SessionState
  pub ingress_queue : Ring ForwardedRequest
  pub gateway_broadcaster : Broadcaster

-- The constructor; `none` is the exception for a capacity below 2.
unfoldable pub make_gateway : ℕ → Option Gateway
make_gateway ingress_queue_capacity =
    elim (make_ring {A = ForwardedRequest} ingress_queue_capacity) [
      | none ↦ none
      | some queue ↦ some (record {
        credentials = [];
        routes = [];
        user_limits = [];
        user_windows = [];
        backend_health =
            insert market_data true
              (insert clearing true (insert matching true (insert risk true [])));
        sessions = [];
        ingress_queue = queue;
        gateway_broadcaster = empty_broadcaster;
      })
    ]
