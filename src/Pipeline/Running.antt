-- ===== src/Pipeline/Running.antt =====
-- integration/exchange-pipeline: every request is answered, and the pipeline goes on.
use collections.Prelude.{
  ◌≡◌, refl, sym, subst, true, false, Bool-cases, ◌&&◌, not, Option, some, string_eq, inl, inr,
  arith,
}
use collections.Prelude.Int.{pos, ◌+ℤ◌}
use collections.Prelude.Dict.{lookup, insert, lookup-insert_self}
use collections.Ring.Drained.{IsDrained}
use collections.Matching.Engine.{engine_snapshot}
use collections.Matching.Wellformed.{IsWellformed}
use collections.Risk.{MarketState}
use collections.Risk.Markets.{update_top_of_book, set_best}
use collections.Pipeline.Types.{completed, WorkflowResult, ParsedOrder, Pipeline, Platform}
use collections.Pipeline.Orders.{front_price}
use collections.Pipeline.Sync.{sync_resting_orders, refresh_market_reference}
use collections.Pipeline.Stages.{handle_rejected_match, release_rejected}
use collections.Pipeline.Settling.{settle_trades, release_closed_orders}
use collections.Pipeline.Submit.{
  populate_market_outputs, complete, after_settlement, has_no_trades, after_match,
}
use collections.Pipeline.Views.{View, view, sync_resting_orders-view}
use collections.Pipeline.StageViews.{
  IsTimely, plus_ms-some, release_rejected-view, settle_trades-returns,
  release_closed_orders-returns, Settles,
}
use Prim.Native.String.{String}

-- The queues are empty, the books well formed, and the market of the symbol is configured.
pub record IsReady (v : View) : Type 0 where
  pub ingress_drained : IsDrained v.ingress_queue
  pub audit_drained : IsDrained v.audit_queue
  pub books_ok : IsWellformed v.books
  pub market_known : (at : MarketState) × (lookup v.symbol v.markets ≡ some at)

-- An answer, by a pipeline that is ready again.
abbrev pub Ends : Option (Pipeline × WorkflowResult) → Type 0
Ends answer =
    (next : Pipeline) × (workflow : WorkflowResult) × (answer ≡ some (next, workflow))
    × IsReady (view next)

pub same_view-Ends :
    (v : View) (next : Pipeline) (workflow : WorkflowResult)
    → IsReady v
    → view next ≡ v
    → Ends (some (next, workflow))
same_view-Ends v next workflow ready same = (next, workflow, refl, subst IsReady (sym same) ready)

-- The state after a new reference price.
refreshed : MarketState → Pipeline → Pipeline
refreshed at p =
    let top = engine_snapshot 1 p.matching_engine in
    let best_bid = front_price top.bids p.best_bid in
    let best_ask = front_price top.asks p.best_ask in
    record p {
      best_bid = best_bid;
      best_ask = best_ask;
      risk_engine = record (p.risk_engine) {
        markets = insert p.symbol (set_best best_bid best_ask at) p.risk_engine.markets;
      };
    }

refresh-runs :
    (p : Pipeline) (at : MarketState)
    → lookup p.symbol p.risk_engine.markets ≡ some at
    → refresh_market_reference p ≡ some (refreshed at p)
unfolding refresh_market_reference update_top_of_book refreshed
refresh-runs p at known = rw (known, refresh_market_reference, update_top_of_book) refl

refreshed-IsReady :
    (p : Pipeline) (at : MarketState) → IsReady (view p) → IsReady (view (refreshed at p))
unfolding refreshed
refreshed-IsReady p at ready =
    let top = engine_snapshot 1 p.matching_engine in
    let best_bid = front_price top.bids p.best_bid in
    let best_ask = front_price top.asks p.best_ask in
    record {
      ingress_drained = ready.ingress_drained;
      audit_drained = ready.audit_drained;
      books_ok = ready.books_ok;
      market_known = (
        set_best best_bid best_ask at,
        lookup-insert_self p.symbol (set_best best_bid best_ask at) p.risk_engine.markets,
      );
    }

complete-Ends :
    (platform : Platform) (p : Pipeline) (workflow : WorkflowResult)
    → IsReady (view p)
    → Ends (complete platform p workflow)
unfolding complete refreshed
complete-Ends platform p workflow ready =
    let synced = sync_resting_orders platform p in
    let same = sync_resting_orders-view platform p in
    let still : IsReady (view synced) = subst IsReady (sym same) ready in
    let (at, known) = still.market_known in
    (
      refreshed at synced,
      populate_market_outputs (refreshed at synced) (record workflow { status = completed }),
      rw (refresh-runs synced at known, complete) refl,
      refreshed-IsReady synced at still,
    )

after_settlement-Ends :
    (platform : Platform) (order : ParsedOrder) (p : Pipeline) (workflow : WorkflowResult)
    → IsTimely order.timestamp_ms
    → IsReady (view p)
    → Ends (after_settlement platform order p workflow)
unfolding after_settlement
after_settlement-Ends platform order p workflow timely ready =
    go (release_closed_orders-returns platform order p workflow timely)
  where
    go :
        Settles p (release_closed_orders platform order p workflow)
        → Ends (after_settlement platform order p workflow)
    go (closed, noted, false, run, same) =
        rw (run, after_settlement) (same_view-Ends (view p) closed noted ready same)
    go (closed, noted, true, run, same) =
        rw (run, after_settlement)
          (complete-Ends platform closed noted (subst IsReady (sym same) ready))

pub after_match-Ends :
    (platform : Platform) (order : ParsedOrder) (hold_id : String) (p : Pipeline)
    (workflow : WorkflowResult)
    → IsTimely order.timestamp_ms
    → IsReady (view p)
    → Ends (after_match platform order hold_id p workflow)
unfolding after_match handle_rejected_match
after_match-Ends platform order hold_id p workflow timely ready =
    let trades = workflow.match_result.trades in
    elim (Bool-cases (not workflow.match_result.is_accepted && has_no_trades trades)) [
      | inl e ↦
          let later = order.timestamp_ms +ℤ pos 1 in
          let after = release_rejected platform order hold_id later p workflow in
          rw (e, after_match)
            (rw (plus_ms-some order.timestamp_ms 1 (omega arith) timely, handle_rejected_match)
              (same_view-Ends (view p) after.0 after.1 ready
                (release_rejected-view platform order hold_id later p workflow)))
      | inr e ↦ go e (settle_trades-returns platform trades order p workflow)
    ]
  where
    go :
        not workflow.match_result.is_accepted && has_no_trades workflow.match_result.trades ≡ false
        → Settles p (settle_trades platform workflow.match_result.trades order p workflow)
        → Ends (after_match platform order hold_id p workflow)
    go e (settled, noted, false, run, same) =
        rw (e, after_match) (rw (run) (same_view-Ends (view p) settled noted ready same))
    go e (settled, noted, true, run, same) =
        rw (e, after_match)
          (rw (run) (
            after_settlement-Ends platform order settled noted timely
              (subst IsReady (sym same) ready)))
