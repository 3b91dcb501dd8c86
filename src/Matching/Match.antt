-- ===== src/Matching/Match.antt =====
-- core-exchange/orderbook-matching-engine/orderbook_matching_engine.cpp: the matching loops and the
-- tests of the book that come before them. The two loops of the source differ only in the side of
-- the makers, which is an argument here. A loop runs on fuel; `none` is undefined behaviour or the
-- end of the fuel, and `match_fuel` is enough.
use collections.Prelude.{
  ℕ, zero, suc, ◌+◌, Bool, true, false, ◌&&◌, Option, none, some, List, [], ◌∷◌, ◌++◌,
  if◌then◌else◌, length, string_eq,
}
use collections.Prelude.Int.{ℤ, pos, ◌+ℤ◌, ◌-ℤ◌, ltb_ℤ, leb_ℤ}
use collections.Prelude.Double.{epsilon}
use collections.Prelude.Dict.{lookup, insert}
use collections.Matching.Types.{
  Side, buy, sell, OrderRequest, Trade, RestingOrder, Levels, LiveOrders, Engine, filled,
  partially_filled, no_reason,
}
use collections.Matching.Events.{emit_depth_event, emit_trade_event, emit_order_event}
use collections.Matching.Book.{
  is_limit, levels_of, ◌>>=◌, aggregate_quantity, update_depth, remove_resting_order,
}
use Prim.Native.String.{String}

-- A level on the makers' side that a limit order does not reach.
unfoldable pub beyond_limit : Side → OrderRequest → ℤ → Bool
beyond_limit sell request price =
    is_limit request.order_type && ltb_ℤ epsilon (price -ℤ request.price)
beyond_limit buy request price =
    is_limit request.order_type && ltb_ℤ epsilon (request.price -ℤ price)

-- The side whose orders a request takes.
abbrev pub opposite : Side → Side
opposite buy = sell
opposite sell = buy

-- `std::min`
abbrev pub min_ℤ : ℤ → ℤ → ℤ
min_ℤ a b = if ltb_ℤ b a then b else a

-- What the loop changes: the engine, `remaining_quantity` and `result.trades`.
pub record Progress : Type 0 where
  pub engine : Engine
  pub remaining : ℤ
  pub trades : List Trade

abbrev pub trade_with : OrderRequest → RestingOrder → ℤ → Trade
trade_with request maker quantity = record {
  maker_order_id = maker.order_id;
  taker_order_id = request.order_id;
  price = maker.price;
  quantity = quantity;
}

-- After a fill: a maker with no more than the tolerance left is removed.
unfoldable pub settle_maker : Side → List String → String → RestingOrder → Engine → Option Engine
settle_maker side queue reference maker e =
    if leb_ℤ maker.open_quantity epsilon
    then remove_resting_order reference (emit_order_event maker.order_id filled no_reason (pos 0) e)
    else (do
      total ← aggregate_quantity e.live_orders (pos 0) queue
      some (
          emit_depth_event (
            emit_order_event maker.order_id partially_filled no_reason maker.open_quantity
              (update_depth side maker.price total e))))

unfoldable pub fill_maker :
    Side → OrderRequest → List String → String → RestingOrder → Progress → Option Progress
fill_maker side request queue reference maker s =
    let fill_quantity = min_ℤ s.remaining maker.open_quantity in
    let left = record maker { open_quantity = maker.open_quantity -ℤ fill_quantity } in
    let trade = trade_with request maker fill_quantity in
    let e =
      emit_trade_event trade
        (record s.engine { live_orders = insert reference left s.engine.live_orders }) in
    settle_maker side queue reference left e >>= λ settled. some (record s {
      engine = settled;
      remaining = s.remaining -ℤ fill_quantity;
      trades = s.trades ++ trade ∷ [];
    })

-- The body of the loop below the two breaks, at the queue of the best level.
unfoldable pub fill_front : Side → OrderRequest → List String → Progress → Option Progress
fill_front side request [] s = none
fill_front side request (reference ∷ queue) s = lookup reference s.engine.live_orders >>= λ maker.
    fill_maker side request (reference ∷ queue) reference maker s

unfoldable pub match_best :
    (Progress → Option Progress) → Side → OrderRequest → Progress → Levels → Option Progress
match_best continue side request s [] = some s
match_best continue side request s ((price, queue) ∷ levels) =
    elim (beyond_limit side request price) [
      | true ↦ some s
      | false ↦ fill_front side request queue s >>= continue
    ]

-- `match_against_asks` at `sell`, `match_against_bids` at `buy`.
unfoldable pub match_against : ℕ → Side → OrderRequest → Progress → Option Progress
match_against zero side request s = none
match_against (suc fuel) side request s = elim (ltb_ℤ epsilon s.remaining) [
  | false ↦ some s
  | true ↦ match_best (match_against fuel side request) side request s (levels_of side s.engine)
]

unfoldable pub order_count : Levels → ℕ
order_count [] = 0
order_count ((price, queue) ∷ levels) = length queue + order_count levels

-- One round for each order of the side, one for a partial fill, and one to leave the loop.
unfoldable pub match_fuel : Side → Engine → ℕ
unfolding order_count
match_fuel side e = order_count (levels_of side e) + 2

unfoldable pub match_request : OrderRequest → ℤ → Engine → Option Progress
match_request request remaining e =
    match_against (match_fuel (opposite request.side) e) (opposite request.side) request
      (record { engine = e; remaining = remaining; trades = [] })

-- The inner loop of `can_fill_fully`: it has found enough, or something is still missing after the
-- queue, or a reference dangles.
pub data Scan : Type 0 where
  enough : Scan
  missing : ℤ → Scan
  dangling : Scan

unfoldable pub scan_queue : LiveOrders → ℤ → List String → Scan
scan_queue live remaining [] = missing remaining
scan_queue live remaining (reference ∷ queue) = elim (lookup reference live) [
  | none ↦ dangling
  | some order ↦ elim (leb_ℤ (remaining -ℤ order.open_quantity) epsilon) [
    | true ↦ enough
    | false ↦ scan_queue live (remaining -ℤ order.open_quantity) queue
  ]
]

-- The outer loop; `none` is undefined behaviour.
unfoldable pub scan_levels : Side → OrderRequest → LiveOrders → ℤ → Levels → Option Bool
scan_levels side request live remaining [] = some (leb_ℤ remaining epsilon)
scan_levels side request live remaining ((price, queue) ∷ levels) =
    elim (beyond_limit side request price) [
      | true ↦ some (leb_ℤ remaining epsilon)
      | false ↦ elim (scan_queue live remaining queue) [
        | enough ↦ some true
        | missing left ↦ scan_levels side request live left levels
        | dangling ↦ none
      ]
    ]

unfoldable pub can_fill_fully : OrderRequest → Engine → Option Bool
can_fill_fully request e =
    let side = opposite request.side in
    scan_levels side request e.live_orders request.quantity (levels_of side e)

-- `has_best_bid`, `has_best_ask`
unfoldable pub has_best : Levels → Bool
has_best [] = false
has_best (level ∷ levels) = true

-- `best_bid`, `best_ask`
unfoldable pub best_price : Levels → ℤ
best_price [] = pos 0
best_price ((price, queue) ∷ levels) = price

abbrev pub crosses : Side → OrderRequest → Engine → Bool
crosses buy request e = has_best e.asks && leb_ℤ (best_price e.asks) (request.price +ℤ epsilon)
crosses sell request e = has_best e.bids && leb_ℤ request.price (best_price e.bids +ℤ epsilon)

unfoldable pub would_cross : OrderRequest → Engine → Bool
would_cross request e = crosses request.side request e
