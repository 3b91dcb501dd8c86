-- ===== src/Matching/DepthOverwrite.antt =====
-- `add_resting_order` gives the depth book the quantity of the new order alone, where the other
-- updates of a level give it the sum of the level.
use collections.Prelude.{
  false, none, some, List, [], ◌∷◌, ◌++◌, ◌≡◌, arith, string_eq, ◌∙◌, subst, inl, inr, Bool-cases,
  Option-cases,
}
use collections.Prelude.Int.{ℤ, pos, ◌+ℤ◌, ◌<ℤ◌, leb_ℤ, <ℤ→leb_ℤ}
use collections.Prelude.Double.{epsilon, epsilon-pos}
use collections.Prelude.Dict.{lookup}
use collections.Prelude.OrderedMap.{OrderedMap, assign, find}
use collections.MarketData.DepthBook.{DepthBook, update, apply_update}
use collections.Matching.Types.{Side, buy, sell, OrderRequest, Levels, LiveOrders, Engine}
use collections.Matching.Events.{emit_depth_event}
use collections.Matching.Book.{
  levels_of, with_levels, before, aggregate_quantity, update_depth, push_back, add_resting_order,
}
use collections.Matching.Wellformed.{Agrees, NotIn, Apart, IsWellformed}
use collections.Matching.OfferLaws.{before_irrefl}
use collections.Matching.Rest.{Apart-fresh, emplace-Agrees}
use collections.Matching.Submit.{resting, rested, side_ok, add_resting_order-parts, rest_lookup}
use Prim.Native.String.{String}

-- The side of the depth book that shows the orders of a side.
abbrev pub depth_levels : Side → DepthBook → OrderedMap ℤ
depth_levels buy book = book.bids
depth_levels sell book = book.asks

find-assign :
    {V : Type 0} (side : Side) (k : ℤ) (v : V) (m : OrderedMap V)
    → find (before side) k (assign (before side) k v m) ≡ some v
unfolding find assign
find-assign side k v [] = rw (before_irrefl side k)
find-assign side k v ((j, w) ∷ m) = ground (arith, before_irrefl side k, find-assign side k v m)

depth_of-update :
    (side : Side) (price quantity : ℤ) (levels : Levels) (live : LiveOrders) (e : Engine)
    → leb_ℤ quantity (pos 0) ≡ false
    → depth_levels side
        (emit_depth_event (
          update_depth side price quantity
            (with_levels side levels (record e { live_orders = live })))).depth_book
      ≡ assign (before side) price quantity (depth_levels side e.depth_book)
unfolding emit_depth_event update_depth update apply_update
depth_of-update buy price quantity levels live e h = rw h
depth_of-update sell price quantity levels live e h = rw h

rest_depth :
    (request : OrderRequest) (quantity : ℤ) (e : Engine)
    → leb_ℤ quantity (pos 0) ≡ false
    → depth_levels request.side (add_resting_order request quantity e).depth_book
      ≡ assign (before request.side) request.price quantity (depth_levels request.side e.depth_book)
unfolding add_resting_order
rest_depth request quantity e h =
    depth_of-update request.side request.price quantity
      (push_back request.side request.price request.order_id (levels_of request.side e))
      (rested request quantity e) e h

NotIn-find :
    (side : Side) (price : ℤ) (id : String) (old : List String) (levels : Levels)
    → Apart id levels
    → find (before side) price levels ≡ some old
    → NotIn id old
unfolding find
NotIn-find side price id old [] apart h = cc
NotIn-find side price id old ((at, queue) ∷ levels) apart h =
    elim (Bool-cases (before side at price)) [
      | inl later ↦ NotIn-find side price id old levels apart.1 (rw later at h)
      | inr not_later ↦ elim (Bool-cases (before side price at)) [
        | inl front ↦ cc (rw (not_later, front) at h)
        | inr here ↦ subst (NotIn id) (some_path (rw (not_later, here) at h)) apart.0
      ]
    ]
  where
    some_path : {x y : List String} → some x ≡ some y → x ≡ y
    some_path e = cc

aggregate-snoc :
    (live live' : LiveOrders) (id : String) (quantity start sum : ℤ) (request : OrderRequest)
    (queue : List String)
    → Agrees id live live'
    → lookup id live' ≡ some (resting request quantity)
    → NotIn id queue
    → aggregate_quantity live start queue ≡ some sum
    → aggregate_quantity live' start (queue ++ id ∷ []) ≡ some (sum +ℤ quantity)
unfolding aggregate_quantity
aggregate-snoc live live' id quantity start sum request [] agree new apart h = ground (arith, new)
aggregate-snoc live live' id quantity start sum request (x ∷ queue) agree new apart h =
    elim (Option-cases (lookup x live)) [
      | inl gone ↦ cc (rw (gone, aggregate_quantity) at h)
      | inr (order, at) ↦
          rw (agree x apart.0 ∙ at, aggregate_quantity)
            (aggregate-snoc live live' id quantity (start +ℤ order.open_quantity) sum request queue
              agree new apart.1 (rw (at, aggregate_quantity) at h))
    ]

-- When an order comes to rest behind the orders of a level of well-formed books, the level then
-- holds the sum of them all, but the depth book shows the quantity of the new order alone.
pub depth_shows_last_order :
    (request : OrderRequest) (quantity sum : ℤ) (old : List String) (e : Engine)
    → IsWellformed e
    → lookup request.order_id e.live_orders ≡ none
    → epsilon <ℤ quantity
    → find (before request.side) request.price (levels_of request.side e) ≡ some old
    → aggregate_quantity e.live_orders (pos 0) old ≡ some sum
    → let e' = add_resting_order request quantity e in
      let queue = old ++ request.order_id ∷ [] in
      (find (before request.side) request.price (levels_of request.side e') ≡ some queue)
      × (aggregate_quantity e'.live_orders (pos 0) queue ≡ some (sum +ℤ quantity))
      × (find (before request.side) request.price (depth_levels request.side e'.depth_book)
          ≡ some quantity)
unfolding push_back
depth_shows_last_order request quantity sum old e w fresh large level total =
    let (levels, others, live) = add_resting_order-parts request quantity e in
    (
      rw levels (
          rw (level, push_back)
            (find-assign request.side request.price _ (levels_of request.side e))),
      rw live (
          aggregate-snoc e.live_orders (rested request quantity e) request.order_id quantity (pos 0)
            sum request old
            (emplace-Agrees request.order_id (resting request quantity) e.live_orders fresh)
            (rest_lookup request quantity e fresh)
            (NotIn-find request.side request.price request.order_id old (levels_of request.side e)
              (Apart-fresh e.live_orders request.order_id fresh request.side
                (levels_of request.side e) (side_ok request.side w))
              level)
            total),
      shown,
    )
  where
    shown :
        find
          (before request.side)
          request.price
          (depth_levels request.side (add_resting_order request quantity e).depth_book)
        ≡ some quantity
    shown =
        rw (rest_depth request quantity e (<ℤ→leb_ℤ quantity (pos 0) (omega (arith, epsilon-pos))))
          (find-assign request.side request.price quantity (depth_levels request.side e.depth_book))
