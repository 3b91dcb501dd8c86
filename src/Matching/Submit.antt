-- ===== src/Matching/Submit.antt =====
-- The operations of the engine on well-formed books: what `finalize_*` and the handlers leave behind.
use collections.Prelude.{none, some, [], ◌≡◌, refl, string_eq, arith, subst₂, sym, ◌∙◌, eq_self}
use collections.Prelude.Int.{ℤ, ◌<ℤ◌}
use collections.Prelude.Double.{epsilon}
use collections.Prelude.Dict.{lookup, emplace, lookup-emplace}
use collections.Matching.Types.{
  Side, buy, sell, OrderStatus, RejectReason, OrderRequest, RestingOrder, Levels, LiveOrders,
  Engine,
}
use collections.Matching.Events.{emit_order_event, emit_depth_event}
use collections.Matching.Book.{levels_of, with_levels, push_back, update_depth, add_resting_order}
use collections.Matching.Match.{opposite, Progress, match_request, match_fuel, beyond_limit}
use collections.Matching.Offers.{Outcome, offers, take_offers}
use collections.Matching.Wellformed.{Owned, LevelsOk, IsWellformed, LevelsOk-agree}
use collections.Matching.Refine.{match_against-Refines}
use collections.Matching.Round.{Refines}
use collections.Matching.Rest.{push_back-ok, Apart-fresh, emplace-Agrees}
use Prim.Native.String.{String}

-- The two books and the live orders are the same.
pub record SameBooks (e e' : Engine) : Type 0 where
  pub bids_eq : e'.bids ≡ e.bids
  pub asks_eq : e'.asks ≡ e.asks
  pub live_eq : e'.live_orders ≡ e.live_orders

pub event-SameBooks :
    (id : String) (status : OrderStatus) (why : RejectReason) (quantity : ℤ) (e : Engine)
    → SameBooks e (emit_order_event id status why quantity e)
unfolding emit_order_event
event-SameBooks id status why quantity e = record { bids_eq = refl; asks_eq = refl; live_eq = refl }

pub SameBooks-IsWellformed : {e e' : Engine} → SameBooks e e' → IsWellformed e → IsWellformed e'
SameBooks-IsWellformed {e} {e'} same w = record {
  bids_ok =
      subst₂ (λ levels live. LevelsOk live buy levels) (sym same.bids_eq) (sym same.live_eq)
        w.bids_ok;
  asks_ok =
      subst₂ (λ levels live. LevelsOk live sell levels) (sym same.asks_eq) (sym same.live_eq)
        w.asks_ok;
}

-- Well-formedness by a side and its opposite.
pub side_ok :
    (side : Side) {e : Engine} → IsWellformed e → LevelsOk e.live_orders side (levels_of side e)
side_ok buy w = w.bids_ok
side_ok sell w = w.asks_ok

pub both_ok :
    (side : Side) {e : Engine}
    → LevelsOk e.live_orders side (levels_of side e)
    → LevelsOk e.live_orders (opposite side) (levels_of (opposite side) e)
    → IsWellformed e
both_ok buy h k = record { bids_ok = h; asks_ok = k }
both_ok sell h k = record { bids_ok = k; asks_ok = h }

-- The order that comes to rest.
abbrev pub resting : OrderRequest → ℤ → RestingOrder
resting request quantity = record {
  order_id = request.order_id;
  side = request.side;
  price = request.price;
  open_quantity = quantity;
  timestamp = request.timestamp;
}

levels_of-rest :
    (side : Side) (price quantity : ℤ) (levels : Levels) (live : LiveOrders) (e : Engine)
    → let e' = emit_depth_event (
        update_depth side price quantity
          (with_levels side levels (record e { live_orders = live }))) in
      (levels_of side e' ≡ levels)
      × (levels_of (opposite side) e' ≡ levels_of (opposite side) e)
      × (e'.live_orders ≡ live)
unfolding emit_depth_event update_depth
levels_of-rest buy price quantity levels live e = (refl, refl, refl)
levels_of-rest sell price quantity levels live e = (refl, refl, refl)

module _ (request : OrderRequest) (quantity : ℤ) (e : Engine) where
  abbrev pub rested : LiveOrders
  rested = emplace request.order_id (resting request quantity) e.live_orders

  pub rest_lookup :
      lookup request.order_id e.live_orders ≡ none
      → lookup request.order_id rested ≡ some (resting request quantity)
  rest_lookup fresh =
      lookup-emplace request.order_id request.order_id (resting request quantity) e.live_orders
        fresh
      ∙ rw (eq_self request.order_id)

  pub add_resting_order-parts :
      let e' = add_resting_order request quantity e in
      (levels_of request.side e'
        ≡ push_back request.side request.price request.order_id (levels_of request.side e))
      × (levels_of (opposite request.side) e' ≡ levels_of (opposite request.side) e)
      × (e'.live_orders ≡ rested)
  unfolding add_resting_order
  add_resting_order-parts =
      levels_of-rest request.side request.price quantity
        (push_back request.side request.price request.order_id (levels_of request.side e)) rested e

  pub add_resting_order-IsWellformed :
      lookup request.order_id e.live_orders ≡ none
      → epsilon <ℤ quantity
      → IsWellformed e
      → IsWellformed (add_resting_order request quantity e)
  add_resting_order-IsWellformed fresh large w =
      let (levels, others, live) = add_resting_order-parts in
      let agree = emplace-Agrees request.order_id (resting request quantity) e.live_orders fresh in
      let owned : Owned rested request.side request.price request.order_id = record {
        order = resting request quantity;
        at = rest_lookup fresh;
        named = refl;
        sided = refl;
        priced = refl;
        large = large;
      } in
      both_ok request.side
        (subst₂ (λ l v. LevelsOk v request.side l) (sym levels) (sym live)
          (push_back-ok e.live_orders request.order_id fresh rested agree request.side request.price
            owned (levels_of request.side e) (side_ok request.side w)))
        (subst₂ (λ l v. LevelsOk v (opposite request.side) l) (sym others) (sym live)
          (LevelsOk-agree request.order_id e.live_orders rested agree (opposite request.side)
            (levels_of (opposite request.side) e)
            (Apart-fresh e.live_orders request.order_id fresh (opposite request.side)
              (levels_of (opposite request.side) e) (side_ok (opposite request.side) w))
            (side_ok (opposite request.side) w)))

-- The matching of a whole request on well-formed books.
abbrev pub outcome_of : OrderRequest → Engine → Outcome
outcome_of request e =
    take_offers (beyond_limit (opposite request.side) request) request.quantity
      (offers e.live_orders (levels_of (opposite request.side) e))

abbrev pub start : OrderRequest → Engine → Progress
start request e = record { engine = e; remaining = request.quantity; trades = [] }

pub match_request-Refines :
    (request : OrderRequest) (e : Engine)
    → IsWellformed e
    → (s : Progress) × (match_request request request.quantity e ≡ some s)
      × Refines (opposite request.side) request (outcome_of request e) (start request e) s
unfolding match_request match_fuel
match_request-Refines request e w =
    match_against-Refines _ (opposite request.side) request (start request e)
      (levels_of (opposite request.side) e) refl (side_ok (opposite request.side) w)
      (side_ok (opposite (opposite request.side)) w) (omega arith)

pub matched-IsWellformed :
    (request : OrderRequest) (e : Engine) (s : Progress)
    → Refines (opposite request.side) request (outcome_of request e) (start request e) s
    → IsWellformed s.engine
matched-IsWellformed request e s r = both_ok (opposite request.side) r.side_ok r.opposite_ok
