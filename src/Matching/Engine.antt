-- ===== src/Matching/Engine.antt =====
-- core-exchange/orderbook-matching-engine/orderbook_matching_engine.cpp: the operations of
-- `OrderbookMatchingEngine`. `none` is undefined behaviour.
use collections.Prelude.{
  ℕ, Bool, true, false, ◌&&◌, ◌||◌, not, Option, none, some, List, [], ◌++◌, if◌then◌else◌, length,
  string_eq,
}
use collections.Prelude.Int.{ℤ, pos, ◌-ℤ◌, ltb_ℤ, leb_ℤ}
use collections.Prelude.Dict.{lookup, contains}
use collections.Prelude.Text.{is_empty}
use collections.MarketData.{DepthSnapshot, BroadcastMessage}
use collections.MarketData.DepthBook.{snapshot}
use collections.MarketData.Broadcaster.{replay}
use collections.Ring.{try_pop}
use collections.Matching.Types.{
  OrderType, limit, market, TimeInForce, ioc, fok, gtx, OrderStatus, accepted, partially_filled,
  filled, cancelled, rejected, RejectReason, no_reason, duplicate_order_id, would_cross_post_only,
  insufficient_liquidity, market_order_would_rest, order_not_found, OrderRequest, MatchResult,
  RestingOrder, RestingOrderView, EngineEvent, Engine,
}
use collections.Matching.Events.{emit_order_event}
use collections.Matching.Book.{is_zero, ◌>>=◌, add_resting_order, remove_resting_order}
use collections.Matching.Match.{Progress, match_request, can_fill_fully, would_cross}
use Prim.Native.String.{String}

unfoldable pub make_rejected_result : RejectReason → ℤ → MatchResult
make_rejected_result reason remaining_quantity = record {
  is_accepted = false;
  final_status = rejected;
  reject_reason = reason;
  executed_quantity = pos 0;
  remaining_quantity = remaining_quantity;
  trades = [];
}

unfoldable pub make_accepted_result : ℤ → MatchResult
make_accepted_result requested_quantity = record {
  is_accepted = true;
  final_status = accepted;
  reject_reason = no_reason;
  executed_quantity = pos 0;
  remaining_quantity = requested_quantity;
  trades = [];
}

abbrev pub is_ioc : TimeInForce → Bool
is_ioc ioc = true
is_ioc _ = false

abbrev pub is_fok : TimeInForce → Bool
is_fok fok = true
is_fok _ = false

abbrev pub is_gtx : TimeInForce → Bool
is_gtx gtx = true
is_gtx _ = false

unfoldable pub finalize_limit_result :
    OrderRequest → ℤ → MatchResult → Engine → Engine × MatchResult
finalize_limit_result request remaining_quantity given e =
    let executed = request.quantity -ℤ remaining_quantity in
    let result = record given {
      executed_quantity = executed;
      remaining_quantity = remaining_quantity;
    } in
    let some_or = λ (yes_status no_status : OrderStatus).
      if ltb_ℤ (pos 0) executed then yes_status else no_status in
    if is_zero remaining_quantity
    then (let status = some_or filled accepted in
        (
          emit_order_event request.order_id status no_reason (pos 0) e,
          record result { final_status = status },
        ))
    else if is_ioc request.tif
    then (let status = some_or partially_filled cancelled in
        (
          emit_order_event request.order_id status no_reason remaining_quantity e,
          record result { final_status = status },
        ))
    else (let status = some_or partially_filled accepted in
        (
          emit_order_event request.order_id status no_reason remaining_quantity
              (add_resting_order request remaining_quantity e),
          record result { final_status = status },
        ))

unfoldable pub finalize_market_result :
    OrderRequest → ℤ → MatchResult → Engine → Engine × MatchResult
finalize_market_result request remaining_quantity given e =
    let executed = request.quantity -ℤ remaining_quantity in
    let result = record given {
      executed_quantity = executed;
      remaining_quantity = remaining_quantity;
    } in
    if is_zero remaining_quantity
    then (
      emit_order_event request.order_id filled no_reason (pos 0) e,
      record result { final_status = filled },
    )
    else if is_ioc request.tif || ltb_ℤ (pos 0) executed
    then (let status = if ltb_ℤ (pos 0) executed then partially_filled else cancelled in
        (
          emit_order_event request.order_id status no_reason remaining_quantity e,
          record result { final_status = status },
        ))
    else (
      emit_order_event request.order_id rejected market_order_would_rest remaining_quantity e,
      record result {
        is_accepted = false;
        final_status = rejected;
        reject_reason = market_order_would_rest;
      },
    )

abbrev pub reject : OrderRequest → RejectReason → Engine → Engine × MatchResult
reject request reason e = (
  emit_order_event request.order_id rejected reason request.quantity e,
  make_rejected_result reason request.quantity,
)

-- The test of a fill-or-kill order, which both handlers make: is the order to be refused?
unfoldable pub kills : OrderRequest → Engine → Option Bool
kills request e =
    if is_fok request.tif
    then (can_fill_fully request e >>= λ fills. some (not fills))
    else some false

-- The result of the matching loop, with its trades.
abbrev pub with_trades : Progress → MatchResult → MatchResult
with_trades s result = record result { trades = result.trades ++ s.trades }

unfoldable pub execute :
    (OrderRequest → ℤ → MatchResult → Engine → Engine × MatchResult)
    → OrderRequest
    → Engine
    → Option (Engine × MatchResult)
execute finalize request e = match_request request request.quantity e >>= λ s.
    some (
      finalize request s.remaining (with_trades s (make_accepted_result request.quantity)) s.engine)

unfoldable pub handle_limit_order : OrderRequest → Engine → Option (Engine × MatchResult)
unfolding kills execute
handle_limit_order request e =
    if is_gtx request.tif && would_cross request e
    then some (reject request would_cross_post_only e)
    else (kills request e >>= λ killed.
        if killed
        then some (reject request insufficient_liquidity e)
        else execute finalize_limit_result request e)

unfoldable pub handle_market_order : OrderRequest → Engine → Option (Engine × MatchResult)
unfolding kills execute
handle_market_order request e = kills request e >>= λ killed.
    if killed
    then some (reject request insufficient_liquidity e)
    else execute finalize_market_result request e

abbrev pub handle : OrderType → OrderRequest → Engine → Option (Engine × MatchResult)
handle limit = handle_limit_order
handle market = handle_market_order

unfoldable pub submit : OrderRequest → Engine → Option (Engine × MatchResult)
submit request e =
    if is_empty request.order_id || leb_ℤ request.quantity (pos 0)
    then some (e, make_rejected_result insufficient_liquidity request.quantity)
    else if contains request.order_id e.live_orders
    then some (reject request duplicate_order_id e)
    else handle request.order_type request e

unfoldable pub cancel : String → ℕ → Engine → Option (Engine × MatchResult)
cancel order_id timestamp e = elim (lookup order_id e.live_orders) [
  | none ↦ some (e, make_rejected_result order_not_found (pos 0))
  | some order ↦ remove_resting_order order_id e >>= λ removed. some (
    emit_order_event order_id cancelled no_reason (pos 0) removed,
    record (make_accepted_result order.open_quantity) { final_status = cancelled },
  )
]

unfoldable pub engine_snapshot : ℕ → Engine → DepthSnapshot
engine_snapshot depth e = snapshot depth e.depth_book

unfoldable pub replay_market_data : String → ℕ → Engine → List BroadcastMessage
replay_market_data topic sequence_after e = replay topic sequence_after e.broadcaster

unfoldable pub poll_event : Engine → Engine × Option EngineEvent
poll_event e =
    let (queue, event) = try_pop e.event_queue in (record e { event_queue = queue }, event)

unfoldable pub live_order_count : Engine → ℕ
live_order_count e = length e.live_orders

abbrev pub view_of : String × RestingOrder → RestingOrderView
view_of (order_id, order) = record {
  order_id = order_id;
  side = order.side;
  price = order.price;
  open_quantity = order.open_quantity;
}
