-- ===== src/Pipeline/StageViews.antt =====
-- integration/exchange-pipeline: what the stages around the book leave as it is.
use collections.Prelude.{
  ℕ, ◌≤◌, ◌^◌, arith, ◌≡◌, refl, ◌∙◌, Bool, true, false, Bool-cases, Option, some, Option-cases,
  List, [], ◌∷◌, ◌++◌, string_eq, inl, inr,
}
use collections.Prelude.Int.{ℤ, pos, ◌+ℤ◌, ◌<ℤ◌, <ℤ→ltb_ℤ, int_laws}
use collections.Prelude.Dict.{lookup, erase}
use collections.Matching.Types.{Trade, RestingOrderView}
use collections.Matching.Views.{resting_orders}
use collections.Clearing.{settled_ok}
use collections.Clearing.Holds.{freeze_quote, freeze_base}
use collections.Clearing.Messages.{operation_ok, status_message}
use collections.Clearing.Outcome.{settle_spot_trade-returns}
use collections.Pipeline.Types.{
  settlement_rejected, workflow_invariant_violation, WorkflowResult, ParsedOrder, ManagedOrder,
  Pipeline, Platform,
}
use collections.Pipeline.Orders.{is_buy, hold_id_for, reserve_amount}
use collections.Pipeline.Sync.{sync_account_state, release_residual_hold}
use collections.Pipeline.Stages.{reserve_order_hold, track_managed_order, plus_ms, release_rejected}
use collections.Pipeline.Settling.{
  fill_of, settle_trade, settle_trades, is_resting, tracked_ids, release_ids, release_closed_orders,
}
use collections.Pipeline.Views.{
  view, sync_account_state-view, sync_resting_orders-view, release_residual_hold-view,
}
use Prim.Native.String.{String}

pub reserve_order_hold-view :
    (platform : Platform) (order : ParsedOrder) (p : Pipeline) (workflow : WorkflowResult)
    → view (reserve_order_hold platform order p workflow).0 ≡ view p
unfolding reserve_order_hold
reserve_order_hold-view platform order p workflow =
    let hold_id = hold_id_for order.order_id in
    let reserved = reserve_amount platform.fpu order p in
    elim (Bool-cases (is_buy order.matching_side)) [
      | inl e ↦
          let held = freeze_quote order.user_id hold_id reserved order.timestamp_ms p.clearing in
          elim (Bool-cases (operation_ok held.1)) [
            | inl f ↦ rw (e, f, reserve_order_hold) refl
            | inr f ↦ rw (e, f, reserve_order_hold) refl
          ]
      | inr e ↦
          let held = freeze_base order.user_id hold_id reserved order.timestamp_ms p.clearing in
          elim (Bool-cases (operation_ok held.1)) [
            | inl f ↦ rw (e, f, reserve_order_hold) refl
            | inr f ↦ rw (e, f, reserve_order_hold) refl
          ]
    ]

pub track_managed_order-view :
    (order : ParsedOrder) (hold_id : String) (p : Pipeline)
    → view (track_managed_order order hold_id p) ≡ view p
unfolding track_managed_order
track_managed_order-view order hold_id p = sync_account_state-view order.user_id p

-- A time to which two milliseconds can be added in 64 bits.
abbrev pub IsTimely : ℤ → Type 0
IsTimely timestamp_ms = timestamp_ms +ℤ pos 2 <ℤ pos (2 ^ 63)

pub plus_ms-some :
    (timestamp_ms : ℤ) (n : ℕ)
    → n ≤ 2
    → IsTimely timestamp_ms
    → plus_ms timestamp_ms n ≡ some (timestamp_ms +ℤ pos n)
unfolding plus_ms
plus_ms-some timestamp_ms n h k =
    rw (<ℤ→ltb_ℤ (timestamp_ms +ℤ pos n) (pos (2 ^ 63)) (omega (int_laws, h, k)), plus_ms) refl

pub release_rejected-view :
    (platform : Platform) (order : ParsedOrder) (hold_id : String) (later : ℤ) (p : Pipeline)
    (workflow : WorkflowResult)
    → view (release_rejected platform order hold_id later p workflow).0 ≡ view p
unfolding release_rejected
release_rejected-view platform order hold_id later p workflow =
    let outcome = release_residual_hold hold_id later p in
    let released = release_residual_hold-view hold_id later p in
    elim (Bool-cases (operation_ok outcome.1)) [
      | inr e ↦ rw (e, release_rejected) released
      | inl e ↦
          let forgotten : Pipeline = record (outcome.0) {
            order_registry = erase order.order_id outcome.0.order_registry;
          } in
          rw (e, release_rejected)
            (sync_resting_orders-view platform (sync_account_state order.user_id forgotten)
              ∙ sync_account_state-view order.user_id forgotten
              ∙ released)
    ]

-- An answer is given, and only balances within accounts or between them have changed.
abbrev pub Settles : Pipeline → Option (Pipeline × WorkflowResult × Bool) → Type 0
Settles p answer =
    (next : Pipeline) × (noted : WorkflowResult) × (goes_on : Bool) × (answer
      ≡ some (next, noted, goes_on))
    × (view next ≡ view p)

-- A round of the settlement returns.
settle_trade-returns :
    (platform : Platform) (trade : Trade) (maker taker : ManagedOrder) (order : ParsedOrder)
    (p : Pipeline) (workflow : WorkflowResult)
    → Settles p (settle_trade platform trade maker taker order p workflow)
unfolding settle_trade
settle_trade-returns platform trade maker taker order p workflow =
    let fill = fill_of trade maker taker order p in
    let ((clearing, settlement), run) =
      settle_spot_trade-returns platform.fpu fill p.fee_schedule p.clearing in
    let next : Pipeline = record p { clearing = clearing } in
    let settled : view next ≡ view p = refl in
    let noted : WorkflowResult = record workflow {
      settlements = workflow.settlements ++ settlement ∷ [];
    } in
    elim (Bool-cases (settled_ok settlement.status)) [
      | inr e ↦ (
        next,
        record noted {
          status = settlement_rejected;
          error_detail = status_message settlement.status;
          is_accepted = false;
        },
        false,
        rw (run, settle_trade) (rw (e) refl),
        settled,
      )
      | inl e ↦
          let buyer_told = sync_account_state fill.buyer_account_id next in
          (
            sync_account_state fill.seller_account_id buyer_told,
            noted,
            true,
            rw (run, settle_trade) (rw (e) refl),
            sync_account_state-view fill.seller_account_id buyer_told
                ∙ sync_account_state-view fill.buyer_account_id next
                ∙ settled,
          )
    ]

-- The settlement of all trades of an order returns.
pub settle_trades-returns :
    (platform : Platform) (trades : List Trade) (order : ParsedOrder) (p : Pipeline)
    (workflow : WorkflowResult)
    → Settles p (settle_trades platform trades order p workflow)
unfolding settle_trades
settle_trades-returns platform [] order p workflow = (p, workflow, true, refl, refl)
settle_trades-returns platform (trade ∷ trades) order p workflow =
    elim (Option-cases (lookup trade.maker_order_id p.order_registry)) [
      | inl gone ↦ (p, unowned, false, rw (gone, settle_trades) refl, refl)
      | inr maker ↦ elim (Option-cases (lookup trade.taker_order_id p.order_registry)) [
        | inl gone ↦ (p, unowned, false, rw (maker.1, gone, settle_trades) refl, refl)
        | inr taker ↦
            go maker.0 taker.0 maker.1 taker.1
              (settle_trade-returns platform trade maker.0 taker.0 order p workflow)
              (settle_trades-returns platform trades order)
      ]
    ]
  where
    unowned : WorkflowResult
    unowned = record workflow {
      status = workflow_invariant_violation;
      error_detail = "missing_order_ownership_for_matched_trade";
      is_accepted = false;
    }

    go :
        (maker taker : ManagedOrder)
        → lookup trade.maker_order_id p.order_registry ≡ some maker
        → lookup trade.taker_order_id p.order_registry ≡ some taker
        → Settles p (settle_trade platform trade maker taker order p workflow)
        → ((next : Pipeline) (noted : WorkflowResult)
            → Settles next (settle_trades platform trades order next noted))
        → Settles p (settle_trades platform (trade ∷ trades) order p workflow)
    go maker taker a b (next, noted, false, run, same) onward =
        (next, noted, false, rw (a, b, run, settle_trades) refl, same)
    go maker taker a b (next, noted, true, run, same) onward =
        let (last, done, goes_on, runs, same') = onward next noted in
        (last, done, goes_on, rw (a, b, run, settle_trades) runs, same' ∙ same)

release_ids-returns :
    (resting : List RestingOrderView) (order_ids : List String) (order : ParsedOrder) (p : Pipeline)
    (workflow : WorkflowResult)
    → IsTimely order.timestamp_ms
    → Settles p (release_ids resting order_ids order p workflow)
unfolding release_ids
release_ids-returns resting [] order p workflow timely = (p, workflow, true, refl, refl)
release_ids-returns resting (order_id ∷ order_ids) order p workflow timely =
    elim (Bool-cases (is_resting order_id resting)) [
      | inl e ↦ rw (e, release_ids) (release_ids-returns resting order_ids order p workflow timely)
      | inr e ↦ elim (Option-cases (lookup order_id p.order_registry)) [
        | inl gone ↦
            rw (e, gone, release_ids)
              (release_ids-returns resting order_ids order p workflow timely)
        | inr managed ↦
            let later = order.timestamp_ms +ℤ pos 2 in
            let in_time = plus_ms-some order.timestamp_ms 2 (omega arith) timely in
            let outcome = release_residual_hold managed.0.hold_id later p in
            let released = release_residual_hold-view managed.0.hold_id later p in
            elim (Bool-cases (operation_ok outcome.1)) [
              | inr f ↦ (
                outcome.0,
                record workflow {
                  status = workflow_invariant_violation;
                  error_detail = status_message outcome.1;
                  is_accepted = false;
                },
                false,
                rw (e, managed.1, release_ids) (rw (in_time) (rw (f) refl)),
                released,
              )
              | inl f ↦
                  let synced = sync_account_state managed.0.user_id outcome.0 in
                  let next : Pipeline = record synced {
                    order_registry = erase order_id synced.order_registry;
                  } in
                  let (last, noted, goes_on, run, same) =
                    release_ids-returns resting order_ids order next workflow timely in
                  (
                    last,
                    noted,
                    goes_on,
                    rw (e, managed.1, release_ids) (rw (in_time) (rw (f) run)),
                    same ∙ sync_account_state-view managed.0.user_id outcome.0 ∙ released,
                  )
            ]
      ]
    ]

pub release_closed_orders-returns :
    (platform : Platform) (order : ParsedOrder) (p : Pipeline) (workflow : WorkflowResult)
    → IsTimely order.timestamp_ms
    → Settles p (release_closed_orders platform order p workflow)
unfolding release_closed_orders
release_closed_orders-returns platform order p workflow timely =
    release_ids-returns (resting_orders platform.sort_views p.matching_engine)
      (tracked_ids p.symbol p.order_registry) order p workflow timely
