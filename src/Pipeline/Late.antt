-- ===== src/Pipeline/Late.antt =====
-- integration/exchange-pipeline: the status of a workflow that has come as far as the book.
use collections.Prelude.{
  ◌≡◌, refl, Bool, true, false, Bool-cases, not, ◌&&◌, Option, none, some, Option-cases, List, [],
  ◌∷◌, string_eq, inl, inr,
}
use collections.Prelude.Int.{ℤ}
use collections.Prelude.Dict.{lookup, erase}
use collections.Matching.Types.{Trade, RestingOrderView}
use collections.Matching.Views.{resting_orders}
use collections.Clearing.{settled_ok}
use collections.Clearing.Settle.{settle_spot_trade}
use collections.Clearing.Messages.{operation_ok}
use collections.Pipeline.Types.{
  WorkflowStatus, route_rejected, parse_rejected, risk_rejected, clearing_rejected, WorkflowResult,
  ParsedOrder, ManagedOrder, Pipeline, Platform,
}
use collections.Pipeline.Sync.{
  sync_account_state, sync_resting_orders, refresh_market_reference, release_residual_hold,
}
use collections.Pipeline.Stages.{
  plus_ms, release_rejected, handle_rejected_match, with_market_events,
}
use collections.Pipeline.Settling.{
  fill_of, settle_trade, settle_trades, is_resting, tracked_ids, release_ids, release_closed_orders,
}
use collections.Pipeline.Submit.{
  populate_market_outputs, complete, after_settlement, has_no_trades, after_match,
}
use Prim.Native.String.{String}

-- The stages before the book.
abbrev pub is_early : WorkflowStatus → Bool
is_early route_rejected = true
is_early parse_rejected = true
is_early risk_rejected = true
is_early clearing_rejected = true
is_early _ = false

-- If there is an answer, its status is not an early one.
abbrev pub IsLate : Option (Pipeline × WorkflowResult) → Type 0
IsLate none = Unit
IsLate (some (p, workflow)) = is_early workflow.status ≡ false

-- If the loop stops, its status is not an early one.
abbrev IsLateStop : Option (Pipeline × WorkflowResult × Bool) → Type 0
IsLateStop (some (p, workflow, false)) = is_early workflow.status ≡ false
IsLateStop _ = Unit

release_rejected-IsLate :
    (platform : Platform) (order : ParsedOrder) (hold_id : String) (later : ℤ) (p : Pipeline)
    (workflow : WorkflowResult)
    → IsLate (some (release_rejected platform order hold_id later p workflow))
unfolding release_rejected with_market_events
release_rejected-IsLate platform order hold_id later p workflow =
    elim (Bool-cases (operation_ok (release_residual_hold hold_id later p).1)) [
      | inl e ↦ rw (e, release_rejected) refl
      | inr e ↦ rw (e, release_rejected) refl
    ]

rejected-IsLate :
    (platform : Platform) (order : ParsedOrder) (hold_id : String) (p : Pipeline)
    (workflow : WorkflowResult)
    → IsLate (handle_rejected_match platform order hold_id p workflow)
unfolding handle_rejected_match
rejected-IsLate platform order hold_id p workflow =
    elim (Option-cases (plus_ms order.timestamp_ms 1)) [
      | inl over ↦ rw (over, handle_rejected_match) tt
      | inr later ↦
          rw (later.1, handle_rejected_match)
            (release_rejected-IsLate platform order hold_id later.0 p workflow)
    ]

settle_trade-IsLateStop :
    (platform : Platform) (trade : Trade) (maker taker : ManagedOrder) (order : ParsedOrder)
    (p : Pipeline) (workflow : WorkflowResult)
    → IsLateStop (settle_trade platform trade maker taker order p workflow)
unfolding settle_trade
settle_trade-IsLateStop platform trade maker taker order p workflow =
    let fill = fill_of trade maker taker order p in
    elim (Option-cases (settle_spot_trade platform.fpu fill p.fee_schedule p.clearing)) [
      | inl gone ↦ rw (gone, settle_trade) tt
      | inr done ↦ elim (Bool-cases (settled_ok done.0.1.status)) [
        | inl e ↦ rw (done.1, settle_trade) (rw (e) tt)
        | inr e ↦ rw (done.1, settle_trade) (rw (e) refl)
      ]
    ]

settle_trades-IsLateStop :
    (platform : Platform) (trades : List Trade) (order : ParsedOrder) (p : Pipeline)
    (workflow : WorkflowResult)
    → IsLateStop (settle_trades platform trades order p workflow)
unfolding settle_trades
settle_trades-IsLateStop platform [] order p workflow = tt
settle_trades-IsLateStop platform (trade ∷ trades) order p workflow =
    elim (Option-cases (lookup trade.maker_order_id p.order_registry)) [
      | inl gone ↦ rw (gone, settle_trades) refl
      | inr maker ↦ elim (Option-cases (lookup trade.taker_order_id p.order_registry)) [
        | inl gone ↦ rw (maker.1, gone, settle_trades) refl
        | inr taker ↦
            go maker.0 taker.0 maker.1 taker.1
              (settle_trade platform trade maker.0 taker.0 order p workflow) refl
              (settle_trade-IsLateStop platform trade maker.0 taker.0 order p workflow)
              (settle_trades-IsLateStop platform trades order)
      ]
    ]
  where
    go :
        (maker taker : ManagedOrder)
        → lookup trade.maker_order_id p.order_registry ≡ some maker
        → lookup trade.taker_order_id p.order_registry ≡ some taker
        → (answer : Option (Pipeline × WorkflowResult × Bool))
        → settle_trade platform trade maker taker order p workflow ≡ answer
        → IsLateStop answer
        → ((next : Pipeline) (noted : WorkflowResult)
            → IsLateStop (settle_trades platform trades order next noted))
        → IsLateStop (settle_trades platform (trade ∷ trades) order p workflow)
    go maker taker a b none run late onward = rw (a, b, run, settle_trades) tt
    go maker taker a b (some (next, noted, false)) run late onward =
        rw (a, b, run, settle_trades) late
    go maker taker a b (some (next, noted, true)) run late onward =
        rw (a, b, run, settle_trades) (onward next noted)

release_ids-IsLateStop :
    (resting : List RestingOrderView) (order_ids : List String) (order : ParsedOrder) (p : Pipeline)
    (workflow : WorkflowResult)
    → IsLateStop (release_ids resting order_ids order p workflow)
unfolding release_ids
release_ids-IsLateStop resting [] order p workflow = tt
release_ids-IsLateStop resting (order_id ∷ order_ids) order p workflow =
    elim (Bool-cases (is_resting order_id resting)) [
      | inl e ↦ rw (e, release_ids) (release_ids-IsLateStop resting order_ids order p workflow)
      | inr e ↦ elim (Option-cases (lookup order_id p.order_registry)) [
        | inl gone ↦
            rw (e, gone, release_ids) (release_ids-IsLateStop resting order_ids order p workflow)
        | inr managed ↦ elim (Option-cases (plus_ms order.timestamp_ms 2)) [
          | inl over ↦ rw (e, managed.1, release_ids) (rw (over) tt)
          | inr later ↦
              let outcome = release_residual_hold managed.0.hold_id later.0 p in
              elim (Bool-cases (operation_ok outcome.1)) [
                | inr f ↦ rw (e, managed.1, release_ids) (rw (later.1) (rw (f) refl))
                | inl f ↦
                    let synced = sync_account_state managed.0.user_id outcome.0 in
                    rw (e, managed.1, release_ids)
                      (rw (later.1) (
                        rw (f) (
                          release_ids-IsLateStop resting order_ids order
                            (record synced {
                              order_registry = erase order_id synced.order_registry;
                            })
                            workflow)))
              ]
        ]
      ]
    ]

complete-IsLate :
    (platform : Platform) (p : Pipeline) (workflow : WorkflowResult)
    → IsLate (complete platform p workflow)
unfolding complete populate_market_outputs with_market_events
complete-IsLate platform p workflow =
    elim (Option-cases (refresh_market_reference (sync_resting_orders platform p))) [
      | inl gone ↦ rw (gone, complete) tt
      | inr next ↦ rw (next.1, complete) refl
    ]

after_settlement-IsLate :
    (platform : Platform) (order : ParsedOrder) (p : Pipeline) (workflow : WorkflowResult)
    → IsLate (after_settlement platform order p workflow)
unfolding after_settlement release_closed_orders
after_settlement-IsLate platform order p workflow =
    let late =
      release_ids-IsLateStop (resting_orders platform.sort_views p.matching_engine)
        (tracked_ids p.symbol p.order_registry) order p workflow in
    go (release_closed_orders platform order p workflow) refl late
  where
    go :
        (answer : Option (Pipeline × WorkflowResult × Bool))
        → release_closed_orders platform order p workflow ≡ answer
        → IsLateStop answer
        → IsLate (after_settlement platform order p workflow)
    go none run late = rw (run, after_settlement) tt
    go (some (closed, noted, false)) run late = rw (run, after_settlement) late
    go (some (closed, noted, true)) run late =
        rw (run, after_settlement) (complete-IsLate platform closed noted)

pub after_match-IsLate :
    (platform : Platform) (order : ParsedOrder) (hold_id : String) (p : Pipeline)
    (workflow : WorkflowResult)
    → IsLate (after_match platform order hold_id p workflow)
unfolding after_match
after_match-IsLate platform order hold_id p workflow =
    let trades = workflow.match_result.trades in
    elim (Bool-cases (not workflow.match_result.is_accepted && has_no_trades trades)) [
      | inl e ↦ rw (e, after_match) (rejected-IsLate platform order hold_id p workflow)
      | inr e ↦
          go e (settle_trades platform trades order p workflow) refl
            (settle_trades-IsLateStop platform trades order p workflow)
    ]
  where
    go :
        not workflow.match_result.is_accepted && has_no_trades workflow.match_result.trades ≡ false
        → (answer : Option (Pipeline × WorkflowResult × Bool))
        → settle_trades platform workflow.match_result.trades order p workflow ≡ answer
        → IsLateStop answer
        → IsLate (after_match platform order hold_id p workflow)
    go e none run late = rw (e, after_match) (rw (run) tt)
    go e (some (settled, noted, false)) run late = rw (e, after_match) (rw (run) late)
    go e (some (settled, noted, true)) run late =
        rw (e, after_match) (rw (run) (after_settlement-IsLate platform order settled noted))
