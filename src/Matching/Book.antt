-- ===== src/Matching/Book.antt =====
-- core-exchange/orderbook-matching-engine/orderbook_matching_engine.cpp: the two books, and how a
-- resting order enters and leaves them. `none` is undefined behaviour: a reference to an order that
-- is not live, or the front of an empty queue.
use collections.Prelude.{
  Bool, true, false, Option, none, some, List, [], ◌∷◌, ◌++◌, if◌then◌else◌, ◌==◌, string_eq,
}
use collections.Prelude.Int.{ℤ, pos, ◌+ℤ◌, leb_ℤ}
use collections.Prelude.Double.{epsilon, fabs}
use collections.Prelude.Dict.{lookup, emplace, erase}
use collections.Prelude.OrderedMap.{assign, find, erase_key}
use collections.MarketData.{BookSide, bid, ask}
use collections.MarketData.DepthBook.{greater, less, update}
use collections.Matching.Types.{
  Side, buy, sell, limit, market, OrderType, OrderRequest, RestingOrder, Levels, LiveOrders, Engine,
}
use collections.Matching.Events.{emit_depth_event}
use Prim.Native.String.{String}

unfoldable pub is_zero : ℤ → Bool
is_zero value = leb_ℤ (fabs value) epsilon

abbrev pub is_limit : OrderType → Bool
is_limit limit = true
is_limit market = false

-- The book that holds the resting orders of a side, its order, and its side in the depth book.
abbrev pub levels_of : Side → Engine → Levels
levels_of buy e = e.bids
levels_of sell e = e.asks

abbrev pub with_levels : Side → Levels → Engine → Engine
with_levels buy levels e = record e { bids = levels }
with_levels sell levels e = record e { asks = levels }

abbrev pub before : Side → ℤ → ℤ → Bool
before buy = greater
before sell = less

abbrev pub depth_side : Side → BookSide
depth_side buy = bid
depth_side sell = ask

infixl 5 ◌>>=◌
abbrev pub ◌>>=◌ {ℓ κ} : {A : Type ℓ} {B : Type κ} → Option A → (A → Option B) → Option B
none >>= f = none
some a >>= f = f a

-- The loop that adds up the open quantities of a queue.
unfoldable pub aggregate_quantity : LiveOrders → ℤ → List String → Option ℤ
aggregate_quantity live total [] = some total
aggregate_quantity live total (id ∷ queue) = elim (lookup id live) [
  | none ↦ none
  | some order ↦ aggregate_quantity live (total +ℤ order.open_quantity) queue
]

unfoldable pub update_depth : Side → ℤ → ℤ → Engine → Engine
update_depth side price quantity e = record e {
  depth_book = (update (depth_side side) price quantity e.depth_book).0;
}

-- `std::find` and `erase` on a queue.
unfoldable pub remove_first : String → List String → List String
remove_first id [] = []
remove_first id (x ∷ queue) = if x == id then queue else x ∷ remove_first id queue

abbrev pub is_nil : List String → Bool
is_nil [] = true
is_nil (x ∷ queue) = false

-- `bids_[price].push_back(order)`: a missing level begins empty.
unfoldable pub push_back : Side → ℤ → String → Levels → Levels
push_back side price id levels = elim (find (before side) price levels) [
  | none ↦ assign (before side) price (id ∷ []) levels
  | some queue ↦ assign (before side) price (queue ++ id ∷ []) levels
]

unfoldable pub add_resting_order : OrderRequest → ℤ → Engine → Engine
add_resting_order request remaining_quantity e =
    let order : RestingOrder = record {
      order_id = request.order_id;
      side = request.side;
      price = request.price;
      open_quantity = remaining_quantity;
      timestamp = request.timestamp;
    } in
    let live = record e { live_orders = emplace order.order_id order e.live_orders } in
    let levels = push_back order.side order.price order.order_id (levels_of order.side e) in
    emit_depth_event
      (update_depth order.side order.price order.open_quantity (with_levels order.side levels live))

-- The lambda of `remove_resting_order`.
unfoldable pub remove_from_book : Side → RestingOrder → Engine → Option Engine
remove_from_book side order e = elim (find (before side) order.price (levels_of side e)) [
  | none ↦ some e
  | some old ↦ do
    let queue = remove_first order.order_id old
    total ← aggregate_quantity e.live_orders (pos 0) queue
    let levels =
        if is_nil queue
        then erase_key (before side) order.price (levels_of side e)
        else assign (before side) order.price queue (levels_of side e)
    some (with_levels side levels (update_depth side order.price total e))
]

unfoldable pub remove_resting_order : String → Engine → Option Engine
remove_resting_order reference e = do
  order ← lookup reference e.live_orders
  removed ← remove_from_book order.side order e
  some
      (emit_depth_event (record removed { live_orders = erase order.order_id removed.live_orders }))
