-- ===== src/Pipeline/Start.antt =====
-- integration/exchange-pipeline: a new pipeline, configured and with users, is ready for requests.
use collections.Prelude.{
  ℕ, ◌≡◌, sym, ap, subst, Bool-cases, Option, none, some, Option-cases, List, [], ◌∷◌, string_eq,
  inl, inr, option_map,
}
use collections.Prelude.Int.{ℤ}
use collections.Prelude.Dict.{lookup, lookup-insert_self}
use collections.Ring.{make_ring}
use collections.Ring.Drained.{IsDrained, make_ring-IsDrained}
use collections.Matching.Types.{make_engine}
use collections.Matching.Wellformed.{IsWellformed}
use collections.Matching.Reachable.{make_engine-IsWellformed}
use collections.Clearing.{AccountSnapshot, FeeSchedule}
use collections.Risk.Types.{MarketRiskConfig, RiskDecision, RiskEngine, make_risk_engine}
use collections.Risk.Markets.{valid_config, configure_market, update_top_of_book, set_best}
use collections.Gateway.Types.{ForwardedRequest, Gateway, make_gateway}
use collections.Gateway.Access.{configure_route, set_user_rate_limit, register_credential}
use collections.Pipeline.Types.{Pipeline, Platform, make_pipeline}
use collections.Pipeline.Sync.{configure_pipeline, register_user, set_insert}
use collections.Clearing.Holds.{upsert_account}
use collections.Pipeline.Views.{view, sync_account_state-view}
use collections.Pipeline.Running.{IsReady}
use Prim.Native.String.{String}

make_gateway-IsDrained :
    (capacity : ℕ) (g : Gateway) → make_gateway capacity ≡ some g → IsDrained g.ingress_queue
unfolding make_gateway
make_gateway-IsDrained capacity g made =
    elim (Option-cases (make_ring {A = ForwardedRequest} capacity)) [
      | inl m ↦ absurd (cc (rw (m, make_gateway) at made))
      | inr m ↦
          subst (λ (x : Gateway). IsDrained x.ingress_queue)
            (some_path (rw (m.1, make_gateway) at made)) (make_ring-IsDrained capacity m.0 m.1)
    ]
  where
    some_path : {x y : Gateway} → some x ≡ some y → x ≡ y
    some_path e = cc e

make_risk_engine-IsDrained :
    (capacity : ℕ) (r : RiskEngine) → make_risk_engine capacity ≡ some r → IsDrained r.audit_queue
unfolding make_risk_engine
make_risk_engine-IsDrained capacity r made =
    elim (Option-cases (make_ring {A = RiskDecision} capacity)) [
      | inl m ↦ absurd (cc (rw (m, make_risk_engine) at made))
      | inr m ↦
          subst (λ (x : RiskEngine). IsDrained x.audit_queue)
            (some_path (rw (m.1, make_risk_engine) at made)) (make_ring-IsDrained capacity m.0 m.1)
    ]
  where
    some_path : {x y : RiskEngine} → some x ≡ some y → x ≡ y
    some_path e = cc e

-- All that is asked of a pipeline but the market.
abbrev IsFresh : Pipeline → Type 0
IsFresh p =
    IsDrained p.gateway.ingress_queue
    × IsDrained p.risk_engine.audit_queue
    × IsWellformed p.matching_engine

make_pipeline-IsFresh :
    (platform : Platform) (symbol : String) (p : Pipeline)
    → make_pipeline platform symbol ≡ some p
    → IsFresh p
unfolding make_pipeline configure_route
make_pipeline-IsFresh platform symbol p made = elim (Option-cases (make_gateway 4096)) [
  | inl m ↦ absurd (cc (rw (m, make_pipeline) at made))
  | inr g ↦ elim (Option-cases (make_risk_engine 4096)) [
    | inl m ↦ absurd (cc (rw (g.1, m, make_pipeline) at made))
    | inr r ↦ elim (Option-cases (make_engine platform.ostream symbol 4096)) [
      | inl m ↦ absurd (cc (rw (g.1, r.1, m, make_pipeline) at made))
      | inr e ↦ subst IsFresh (some_path (rw (g.1, r.1, e.1, make_pipeline) at made)) (
        make_gateway-IsDrained 4096 g.0 g.1,
        make_risk_engine-IsDrained 4096 r.0 r.1,
        make_engine-IsWellformed platform.ostream symbol 4096 e.0 e.1,
      )
    ]
  ]
]
  where
    some_path : {x y : Pipeline} → some x ≡ some y → x ≡ y
    some_path e = cc e

configure-queue :
    (config : MarketRiskConfig) (r r' : RiskEngine)
    → configure_market config r ≡ some r'
    → r'.audit_queue ≡ r.audit_queue
unfolding configure_market
configure-queue config r r' h = elim (Bool-cases (valid_config config)) [
  | inl e ↦ same (rw (e, configure_market) at h)
  | inr e ↦ absurd (cc (rw (e, configure_market) at h))
]
  where
    same : {x : RiskEngine} → some x ≡ some r' → r'.audit_queue ≡ x.audit_queue
    same e = ap (λ (y : RiskEngine). y.audit_queue) (sym (some_path e))
      where
        some_path : {x y : RiskEngine} → some x ≡ some y → x ≡ y
        some_path e = cc e

configure_pipeline-IsReady :
    (bid ask : ℤ) (fees : FeeSchedule) (config : MarketRiskConfig) (p q : Pipeline)
    → IsFresh p
    → configure_pipeline bid ask fees config p ≡ some q
    → IsReady (view q)
unfolding configure_pipeline update_top_of_book
configure_pipeline-IsReady bid ask fees config p q fresh h =
    elim (Option-cases (configure_market config p.risk_engine)) [
      | inl gone ↦ absurd (cc (rw (gone, configure_pipeline) at h))
      | inr r ↦ elim (Option-cases (lookup p.symbol r.0.markets)) [
        | inl gone ↦ absurd (cc (rw (r.1, gone, configure_pipeline, update_top_of_book) at h))
        | inr at ↦
            subst (λ (x : Pipeline). IsReady (view x))
              (some_path (rw (r.1, at.1, configure_pipeline, update_top_of_book) at h))
              (record {
                ingress_drained = fresh.0;
                audit_drained =
                    subst IsDrained (sym (configure-queue config p.risk_engine r.0 r.1)) fresh.1;
                books_ok = fresh.2;
                market_known = (
                  set_best bid ask at.0,
                  lookup-insert_self p.symbol (set_best bid ask at.0) r.0.markets,
                );
              })
      ]
    ]
  where
    some_path : {x y : Pipeline} → some x ≡ some y → x ≡ y
    some_path e = cc e

-- The arguments of `register_user`.
pub record User : Type 0 where
  pub api_key : String
  pub secret : String
  pub user_id : String
  pub account_snapshot : AccountSnapshot
  pub max_requests : ℕ
  pub window_ms : ℤ

unfoldable pub register_all : List User → Pipeline → Pipeline
register_all [] p = p
register_all (user ∷ users) p = register_all users (
    register_user user.api_key user.secret user.user_id user.account_snapshot user.max_requests
      user.window_ms p)

-- A pipeline for a symbol, configured once, with users.
unfoldable pub set_up :
    Platform → String → ℤ → ℤ → FeeSchedule → MarketRiskConfig → List User → Option Pipeline
set_up platform symbol best_bid best_ask fees config users = elim (make_pipeline platform symbol) [
  | none ↦ none
  | some made ↦
      option_map (register_all users) (configure_pipeline best_bid best_ask fees config made)
]

register_all-IsReady :
    (users : List User) (p : Pipeline) → IsReady (view p) → IsReady (view (register_all users p))
unfolding register_all register_user set_user_rate_limit register_credential upsert_account
register_all-IsReady [] p ready = ready
register_all-IsReady (user ∷ users) p ready =
    let inner : Pipeline = record p {
      gateway =
          set_user_rate_limit user.user_id user.max_requests user.window_ms
            (register_credential user.api_key user.secret user.user_id p.gateway);
      clearing = upsert_account user.user_id user.account_snapshot p.clearing;
      known_users = set_insert user.user_id p.known_users;
    } in
    register_all-IsReady users
      (register_user user.api_key user.secret user.user_id user.account_snapshot user.max_requests
        user.window_ms p)
      (subst IsReady (sym (sync_account_state-view user.user_id inner)) (record {
        ingress_drained = ready.ingress_drained;
        audit_drained = ready.audit_drained;
        books_ok = ready.books_ok;
        market_known = ready.market_known;
      }))

-- A pipeline that is made, configured without an exception, and given users, is ready for requests:
-- its queues are empty, its books well formed, and the market of its symbol is configured.
pub set_up-IsReady :
    (platform : Platform) (symbol : String) (best_bid best_ask : ℤ) (fees : FeeSchedule)
    (config : MarketRiskConfig) (users : List User) (p : Pipeline)
    → set_up platform symbol best_bid best_ask fees config users ≡ some p
    → IsReady (view p)
unfolding set_up
set_up-IsReady platform symbol best_bid best_ask fees config users p h =
    elim (Option-cases (make_pipeline platform symbol)) [
      | inl gone ↦ absurd (cc (rw (gone, set_up) at h))
      | inr made ↦ elim (Option-cases (configure_pipeline best_bid best_ask fees config made.0)) [
        | inl gone ↦ absurd (cc (rw (made.1, gone, set_up) at h))
        | inr q ↦
            subst (λ (x : Pipeline). IsReady (view x)) (some_path (rw (made.1, q.1, set_up) at h))
              (register_all-IsReady users q.0 (
                configure_pipeline-IsReady best_bid best_ask fees config made.0 q.0
                  (make_pipeline-IsFresh platform symbol made.0 made.1) q.1))
      ]
    ]
  where
    some_path : {x y : Pipeline} → some x ≡ some y → x ≡ y
    some_path e = cc e
