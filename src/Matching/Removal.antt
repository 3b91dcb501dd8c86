-- ===== src/Matching/Removal.antt =====
-- What `remove_resting_order` does to the books and to the live orders.
use collections.Prelude.{some, List, [], ◌∷◌, ◌≡◌, refl, All, string_eq, if◌then◌else◌, subst, sym}
use collections.Prelude.Int.{ℤ, pos, ◌+ℤ◌}
use collections.Prelude.Dict.{lookup, erase}
use collections.Prelude.OrderedMap.{find, assign, erase_key}
use collections.Matching.Types.{Side, buy, sell, RestingOrder, Levels, LiveOrders, Engine}
use collections.Matching.Events.{emit_depth_event}
use collections.Matching.Book.{
  levels_of, with_levels, before, is_nil, aggregate_quantity, update_depth, remove_first,
  remove_from_book, remove_resting_order,
}
use collections.Matching.Match.{opposite}
use collections.Matching.Wellformed.{Owned}
use Prim.Native.String.{String}

-- The open quantities of a queue of live orders can be added up.
pub aggregate_total :
    (live : LiveOrders) (side : Side) (price start : ℤ) (queue : List String)
    → All (Owned live side price) queue
    → (sum : ℤ) × (aggregate_quantity live start queue ≡ some sum)
unfolding aggregate_quantity
aggregate_total live side price start [] h = (start, refl)
aggregate_total live side price start (x ∷ queue) h =
    let (sum, e) = aggregate_total live side price (start +ℤ h.0.order.open_quantity) queue h.1 in
    (sum, rw (h.0.at, aggregate_quantity) e)

-- The levels of a side after a queue was cut down.
abbrev pub cut_level : Side → ℤ → List String → Levels → Levels
cut_level side price queue levels =
    if is_nil queue
    then erase_key (before side) price levels
    else assign (before side) price queue levels

-- The parts of an engine that a removal leaves behind.
pub record Removed (side : Side) (levels : Levels) (live : LiveOrders) (e e' : Engine)
    : Type 0 where
  pub levels_eq : levels_of side e' ≡ levels
  pub opposite_eq : levels_of (opposite side) e' ≡ levels_of (opposite side) e
  pub live_eq : e'.live_orders ≡ live

-- The book without an order.
abbrev cut : Side → RestingOrder → List String → ℤ → Engine → Engine
cut side order old sum e =
    with_levels side
      (cut_level side order.price (remove_first order.order_id old) (levels_of side e))
      (update_depth side order.price sum e)

remove_from_book_lem :
    (order : RestingOrder) (old : List String) (e : Engine) (sum : ℤ) (side : Side)
    → find (before side) order.price (levels_of side e) ≡ some old
    → aggregate_quantity e.live_orders (pos 0) (remove_first order.order_id old) ≡ some sum
    → remove_from_book side order e ≡ some (cut side order old sum e)
unfolding remove_from_book
remove_from_book_lem order old e sum side f a = rw (f, remove_from_book) (rw a refl)

cut-Removed :
    (order : RestingOrder) (old : List String) (e : Engine) (sum : ℤ) (side : Side)
    → Removed side
        (cut_level side order.price (remove_first order.order_id old) (levels_of side e))
        (erase order.order_id e.live_orders)
        e
        (emit_depth_event (record (cut side order old sum e) {
          live_orders = erase order.order_id (cut side order old sum e).live_orders;
        }))
unfolding emit_depth_event update_depth
cut-Removed order old e sum buy = record { levels_eq = refl; opposite_eq = refl; live_eq = refl }
cut-Removed order old e sum sell = record { levels_eq = refl; opposite_eq = refl; live_eq = refl }

pub remove_resting_order_lem :
    (reference : String) (order : RestingOrder) (old : List String) (e : Engine) (side : Side)
    → let queue = remove_first order.order_id old in
      lookup reference e.live_orders ≡ some order
      → order.side ≡ side
      → find (before side) order.price (levels_of side e) ≡ some old
      → All (Owned e.live_orders side order.price) queue
      → (e' : Engine) × (remove_resting_order reference e ≡ some e')
        × Removed side
            (cut_level side order.price queue (levels_of side e))
            (erase order.order_id e.live_orders)
            e
            e'
unfolding remove_resting_order
remove_resting_order_lem reference order old e side at sided f owned =
    let (sum, a) =
      aggregate_total e.live_orders side order.price (pos 0) (remove_first order.order_id old)
        owned in
    let book =
      subst (λ s. remove_from_book s order e ≡ some (cut side order old sum e)) (sym sided)
        (remove_from_book_lem order old e sum side f a) in
    (_, rw (at, remove_resting_order) (rw book refl), cut-Removed order old e sum side)
