-- ===== src/Matching/Events.antt =====
-- What core-exchange/orderbook-matching-engine emits: the payloads, the broadcast on the topic of
-- the symbol, and the push to the event queue, whose refusal when full is ignored.
use collections.Prelude.{length}
use collections.Prelude.Int.{ℤ}
use collections.Prelude.Double.{Ostream}
use collections.Prelude.Text.{◌<>◌}
use collections.MarketData.{DepthSnapshot}
use collections.MarketData.DepthBook.{snapshot}
use collections.MarketData.Broadcaster.{publish}
use collections.Ring.{push}
use collections.Matching.Types.{
  OrderStatus, accepted, partially_filled, filled, cancelled, rejected, RejectReason, no_reason,
  duplicate_order_id, would_cross_post_only, insufficient_liquidity, market_order_would_rest,
  order_not_found, Trade, Engine,
}
use Prim.Native.String.{String}

unfoldable pub status_to_string : OrderStatus → String
status_to_string accepted = "accepted"
status_to_string partially_filled = "partially_filled"
status_to_string filled = "filled"
status_to_string cancelled = "cancelled"
status_to_string rejected = "rejected"

unfoldable pub reason_to_string : RejectReason → String
reason_to_string no_reason = "none"
reason_to_string duplicate_order_id = "duplicate_order_id"
reason_to_string would_cross_post_only = "would_cross_post_only"
reason_to_string insufficient_liquidity = "insufficient_liquidity"
reason_to_string market_order_would_rest = "market_order_would_rest"
reason_to_string order_not_found = "order_not_found"

unfoldable pub format_trade_payload : Ostream → Trade → String
format_trade_payload out trade =
    "maker="
    <> trade.maker_order_id
    <> ",taker="
    <> trade.taker_order_id
    <> ",price="
    <> out.print_double trade.price
    <> ",qty="
    <> out.print_double trade.quantity

unfoldable pub format_order_payload : Ostream → String → OrderStatus → RejectReason → ℤ → String
unfolding status_to_string reason_to_string
format_order_payload out order_id status reason open_quantity =
    "order_id="
    <> order_id
    <> ",status="
    <> status_to_string status
    <> ",reason="
    <> reason_to_string reason
    <> ",open_qty="
    <> out.print_double open_quantity

unfoldable pub publish_market_data : String → String → Engine → Engine
publish_market_data topic payload e = record e {
  broadcaster = (publish topic payload e.broadcaster).0;
}

unfoldable pub push_event : String → String → Engine → Engine
push_event topic payload e = record e {
  event_queue = (push (record { topic = topic; payload = payload }) e.event_queue).0;
}

unfoldable pub emit_order_event : String → OrderStatus → RejectReason → ℤ → Engine → Engine
unfolding publish_market_data push_event
emit_order_event order_id status reason open_quantity e =
    let payload = format_order_payload e.ostream order_id status reason open_quantity in
    push_event "orders" payload (publish_market_data ("orders." <> e.symbol) payload e)

unfoldable pub emit_trade_event : Trade → Engine → Engine
unfolding publish_market_data push_event
emit_trade_event trade e =
    let payload = format_trade_payload e.ostream trade in
    push_event "trades" payload (publish_market_data ("trades." <> e.symbol) payload e)

unfoldable pub format_depth_payload : Ostream → DepthSnapshot → String
format_depth_payload out top =
    "bids=" <> out.print_size (length top.bids) <> ",asks=" <> out.print_size (length top.asks)

unfoldable pub emit_depth_event : Engine → Engine
unfolding publish_market_data push_event
emit_depth_event e =
    let payload = format_depth_payload e.ostream (snapshot 5 e.depth_book) in
    push_event "depth" payload (publish_market_data ("depth." <> e.symbol) payload e)
