-- ===== src/Pipeline/Views.antt =====
-- integration/exchange-pipeline: what telling the risk engine of accounts and orders leaves as it is.
use collections.Prelude.{
  ◌≡◌, refl, ◌∙◌, ap₂, Bool-cases, Option-cases, List, [], ◌∷◌, string_eq, inl, inr,
}
use collections.Prelude.Int.{ℤ}
use collections.Prelude.Dict.{Dict, lookup}
use collections.Ring.{Ring}
use collections.Matching.Types.{Engine, RestingOrderView}
use collections.Matching.Views.{resting_orders}
use collections.Clearing.Holds.{account, hold_amount}
use collections.Risk.{RiskDecision, RiskEngine, MarketState}
use collections.Risk.Markets.{set_account_state, track_resting_order, clear_user_resting_orders}
use collections.Gateway.{ForwardedRequest}
use collections.Pipeline.Types.{Pipeline, Platform}
use collections.Pipeline.Orders.{is_zero}
use collections.Pipeline.Sync.{
  sync_account_state, clear_users, track_view, track_views, sync_resting_orders,
  release_residual_hold,
}
use Prim.Native.String.{String}

-- The queues, the markets, the book and the symbol.
pub record View : Type 0 where
  pub ingress_queue : Ring ForwardedRequest
  pub audit_queue : Ring RiskDecision
  pub markets : Dict String MarketState
  pub books : Engine
  pub symbol : String

abbrev pub view : Pipeline → View
view p = record {
  ingress_queue = p.gateway.ingress_queue;
  audit_queue = p.risk_engine.audit_queue;
  markets = p.risk_engine.markets;
  books = p.matching_engine;
  symbol = p.symbol;
}

pub sync_account_state-view :
    (user_id : String) (p : Pipeline) → view (sync_account_state user_id p) ≡ view p
unfolding sync_account_state set_account_state
sync_account_state-view user_id p = elim (Option-cases (account user_id p.clearing)) [
  | inl gone ↦ rw (gone, sync_account_state) refl
  | inr there ↦ rw (there.1, sync_account_state) refl
]

-- The same with the risk engine changed in its resting orders alone.
abbrev OnlyOrders : RiskEngine → RiskEngine → Type 0
OnlyOrders r r' = (r'.audit_queue ≡ r.audit_queue) × (r'.markets ≡ r.markets)

clear_user-same :
    (symbol user_id : String) (r : RiskEngine)
    → OnlyOrders r (clear_user_resting_orders symbol user_id r)
unfolding clear_user_resting_orders
clear_user-same symbol user_id r = elim (Option-cases (lookup symbol r.resting_orders)) [
  | inl gone ↦ rw (gone, clear_user_resting_orders) (refl, refl)
  | inr there ↦ rw (there.1, clear_user_resting_orders) (refl, refl)
]

clear_users-same :
    (symbol : String) (users : List String) (r : RiskEngine)
    → OnlyOrders r (clear_users symbol users r)
unfolding clear_users
clear_users-same symbol [] r = (refl, refl)
clear_users-same symbol (user_id ∷ users) r =
    let first = clear_user-same symbol user_id r in
    let others = clear_users-same symbol users (clear_user_resting_orders symbol user_id r) in
    (others.0 ∙ first.0, others.1 ∙ first.1)

track_views-view :
    (views : List RestingOrderView) (p : Pipeline) → view (track_views views p) ≡ view p
unfolding track_views track_view track_resting_order
track_views-view [] p = refl
track_views-view (resting ∷ views) p =
    elim (Option-cases (lookup resting.order_id p.order_registry)) [
      | inl gone ↦ rw (gone, track_views) (track_views-view views p)
      | inr there ↦
          rw (there.1, track_views) (track_views-view views (track_view resting there.0 p))
    ]

pub sync_resting_orders-view :
    (platform : Platform) (p : Pipeline) → view (sync_resting_orders platform p) ≡ view p
unfolding sync_resting_orders
sync_resting_orders-view platform p =
    let engine = clear_users p.symbol p.resting_users p.risk_engine in
    let same = clear_users-same p.symbol p.resting_users p.risk_engine in
    track_views-view (resting_orders platform.sort_views p.matching_engine)
      (record p { risk_engine = engine; resting_users = [] })
    ∙ ap₂
        (λ (x : Ring RiskDecision) (y : Dict String MarketState). record (view p) {
          audit_queue = x;
          markets = y;
        })
        same.0 same.1

pub release_residual_hold-view :
    (hold_id : String) (timestamp_ms : ℤ) (p : Pipeline)
    → view (release_residual_hold hold_id timestamp_ms p).0 ≡ view p
unfolding release_residual_hold
release_residual_hold-view hold_id timestamp_ms p =
    elim (Option-cases (hold_amount hold_id p.clearing)) [
      | inl gone ↦ rw (gone, release_residual_hold) refl
      | inr there ↦ elim (Bool-cases (is_zero there.0)) [
        | inl e ↦ rw (there.1, e, release_residual_hold) refl
        | inr e ↦ rw (there.1, e, release_residual_hold) refl
      ]
    ]
