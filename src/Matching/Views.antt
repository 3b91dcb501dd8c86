-- ===== src/Matching/Views.antt =====
-- core-exchange/orderbook-matching-engine/orderbook_matching_engine.cpp: the resting orders by their
-- ids.
use collections.Prelude.{Bool, true, false, List, map}
use collections.Prelude.Sorting.{Sort}
use collections.Matching.Types.{RestingOrderView, Engine}
use collections.Matching.Engine.{view_of}
use Prim.Native.Nat.{Ordering}
use Prim.Native.String.{compare}

-- The comparison of `resting_orders`, byte by byte.
abbrev pub id_before : RestingOrderView → RestingOrderView → Bool
id_before left right = elim (compare left.order_id right.order_id) [
  | Ordering.lt ↦ true
  | _ ↦ false
]

unfoldable pub resting_orders : Sort RestingOrderView → Engine → List RestingOrderView
resting_orders std e = std.sort id_before (map view_of e.live_orders)
