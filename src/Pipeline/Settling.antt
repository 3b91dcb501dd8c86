-- ===== src/Pipeline/Settling.antt =====
-- integration/exchange-pipeline/exchange_pipeline.cpp: the trades of an order are settled, and the
-- holds of closed orders released. `none` is undefined behaviour.
use collections.Prelude.{
  Bool, true, false, not, Option, none, some, List, [], ◌∷◌, ◌++◌, if◌then◌else◌, ◌==◌, string_eq,
}
use collections.Prelude.Dict.{Dict, lookup, erase}
use collections.Prelude.Text.{◌<>◌}
use collections.Matching.Types.{Trade, RestingOrderView}
use collections.Matching.Views.{resting_orders}
use collections.Clearing.{TradeFill, settled_ok}
use collections.Clearing.Settle.{settle_spot_trade}
use collections.Clearing.Messages.{operation_ok, status_message}
use collections.Pipeline.Types.{
  settlement_rejected, workflow_invariant_violation, WorkflowResult, ParsedOrder, ManagedOrder,
  Pipeline, Platform,
}
use collections.Pipeline.Orders.{is_buy}
use collections.Pipeline.Stages.{plus_ms}
use collections.Pipeline.Sync.{sync_account_state, release_residual_hold}
use Prim.Native.String.{String}

-- The fill of a trade between two orders that are known.
unfoldable pub fill_of : Trade → ManagedOrder → ManagedOrder → ParsedOrder → Pipeline → TradeFill
fill_of trade maker taker order p =
    let taker_is_buy = is_buy taker.side in
    record {
      trade_id = trade.maker_order_id <> "->" <> trade.taker_order_id;
      symbol = p.symbol;
      buyer_account_id = if taker_is_buy then taker.user_id else maker.user_id;
      seller_account_id = if taker_is_buy then maker.user_id else taker.user_id;
      buyer_hold_id = if taker_is_buy then taker.hold_id else maker.hold_id;
      seller_hold_id = if taker_is_buy then maker.hold_id else taker.hold_id;
      price = trade.price;
      quantity = trade.quantity;
      buyer_is_taker = taker_is_buy;
      timestamp_ms = order.timestamp_ms;
    }

abbrev pub stopped : WorkflowResult → Pipeline → Option (Pipeline × WorkflowResult × Bool)
stopped workflow p = some (p, record workflow { is_accepted = false }, false)

-- One round of the loop of `settle_trades`: the answer is whether it goes on.
unfoldable pub settle_trade :
    Platform
    → Trade
    → ManagedOrder
    → ManagedOrder
    → ParsedOrder
    → Pipeline
    → WorkflowResult
    → Option (Pipeline × WorkflowResult × Bool)
unfolding fill_of
settle_trade platform trade maker taker order p workflow =
    let fill = fill_of trade maker taker order p in
    elim (settle_spot_trade platform.fpu fill p.fee_schedule p.clearing) [
      | none ↦ none
      | some (clearing, settlement) ↦
          let next : Pipeline = record p { clearing = clearing } in
          let noted : WorkflowResult = record workflow {
            settlements = workflow.settlements ++ settlement ∷ [];
          } in
          if not (settled_ok settlement.status)
          then stopped
              (record noted {
                status = settlement_rejected;
                error_detail = status_message settlement.status;
              })
              next
          else some (
            sync_account_state fill.seller_account_id
                (sync_account_state fill.buyer_account_id next),
            noted,
            true,
          )
    ]

unfoldable pub settle_trades :
    Platform
    → List Trade
    → ParsedOrder
    → Pipeline
    → WorkflowResult
    → Option (Pipeline × WorkflowResult × Bool)
unfolding settle_trade
settle_trades platform [] order p workflow = some (p, workflow, true)
settle_trades platform (trade ∷ trades) order p workflow =
    let unknown =
      stopped
        (record workflow {
          status = workflow_invariant_violation;
          error_detail = "missing_order_ownership_for_matched_trade";
        })
        p in
    elim (lookup trade.maker_order_id p.order_registry) [
      | none ↦ unknown
      | some maker ↦ elim (lookup trade.taker_order_id p.order_registry) [
        | none ↦ unknown
        | some taker ↦ elim (settle_trade platform trade maker taker order p workflow) [
          | none ↦ none
          | some (next, noted, false) ↦ some (next, noted, false)
          | some (next, noted, true) ↦ settle_trades platform trades order next noted
        ]
      ]
    ]

-- `live_order_ids.contains`
unfoldable pub is_resting : String → List RestingOrderView → Bool
is_resting order_id [] = false
is_resting order_id (view ∷ views) =
    if view.order_id == order_id then true else is_resting order_id views

-- The ids of the registry, in the order in which it is walked.
unfoldable pub tracked_ids : String → Dict String ManagedOrder → List String
tracked_ids symbol [] = []
tracked_ids symbol ((order_id, managed) ∷ registry) =
    if managed.symbol == symbol
    then order_id ∷ tracked_ids symbol registry
    else tracked_ids symbol registry

-- The third loop of `release_closed_orders`.
unfoldable pub release_ids :
    List RestingOrderView
    → List String
    → ParsedOrder
    → Pipeline
    → WorkflowResult
    → Option (Pipeline × WorkflowResult × Bool)
unfolding is_resting plus_ms
release_ids resting [] order p workflow = some (p, workflow, true)
release_ids resting (order_id ∷ order_ids) order p workflow = elim (is_resting order_id resting) [
  | true ↦ release_ids resting order_ids order p workflow
  | false ↦ elim (lookup order_id p.order_registry) [
    | none ↦ release_ids resting order_ids order p workflow
    | some managed ↦ elim (plus_ms order.timestamp_ms 2) [
      | none ↦ none
      | some later ↦
          let (released, status) = release_residual_hold managed.hold_id later p in
          elim (operation_ok status) [
            | false ↦
                stopped
                  (record workflow {
                    status = workflow_invariant_violation;
                    error_detail = status_message status;
                  })
                  released
            | true ↦
                let synced = sync_account_state managed.user_id released in
                release_ids resting order_ids order
                  (record synced { order_registry = erase order_id synced.order_registry }) workflow
          ]
    ]
  ]
]

unfoldable pub release_closed_orders :
    Platform → ParsedOrder → Pipeline → WorkflowResult → Option (Pipeline × WorkflowResult × Bool)
unfolding tracked_ids release_ids
release_closed_orders platform order p workflow =
    release_ids (resting_orders platform.sort_views p.matching_engine)
      (tracked_ids p.symbol p.order_registry) order p workflow
