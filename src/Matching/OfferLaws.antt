-- ===== src/Matching/OfferLaws.antt =====
-- The offers of a side under changes of the live orders, and the best level of a side.
use collections.Prelude.{
  false, some, List, [], ◌∷◌, ◌++◌, ◌≡◌, refl, ap₂, string_eq, arith, if◌then◌else◌, eq_self,
}
use collections.Prelude.Int.{ℤ}
use collections.Prelude.OrderedMap.{find, assign, erase_key}
use collections.Matching.Types.{Side, buy, sell, Levels, LiveOrders}
use collections.Matching.Book.{before, is_nil, remove_first}
use collections.Matching.Offers.{queue_offers, offers}
use collections.Matching.Wellformed.{Agrees, NotIn, Apart}
use collections.Matching.Removal.{cut_level}
use Prim.Native.String.{String}

module _ (k : String) (live live' : LiveOrders) (agree : Agrees k live live') where
  pub queue_offers-agree :
      (price : ℤ) (queue : List String)
      → NotIn k queue
      → queue_offers live' price queue ≡ queue_offers live price queue
  unfolding queue_offers
  queue_offers-agree price [] apart = refl
  queue_offers-agree price (x ∷ queue) apart =
      ground (arith, agree x apart.0, queue_offers-agree price queue apart.1)

  pub offers-agree : (levels : Levels) → Apart k levels → offers live' levels ≡ offers live levels
  unfolding offers
  offers-agree [] apart = refl
  offers-agree ((price, queue) ∷ levels) apart =
      ap₂ (◌++◌) (queue_offers-agree price queue apart.0) (offers-agree levels apart.1)

-- The levels without the front of the best queue.
abbrev pub tail_levels : ℤ → List String → Levels → Levels
tail_levels price queue levels = if is_nil queue then levels else (price, queue) ∷ levels

pub offers-tail_levels :
    (live : LiveOrders) (price : ℤ) (queue : List String) (levels : Levels)
    → offers live (tail_levels price queue levels)
      ≡ queue_offers live price queue ++ offers live levels
unfolding offers queue_offers
offers-tail_levels live price [] levels = refl
offers-tail_levels live price (x ∷ queue) levels = refl

pub before_irrefl : (side : Side) (price : ℤ) → before side price price ≡ false
before_irrefl buy price = ground arith
before_irrefl sell price = ground arith

pub find-head :
    (side : Side) (price : ℤ) (queue : List String) (levels : Levels)
    → find (before side) price ((price, queue) ∷ levels) ≡ some queue
unfolding find
find-head side price queue levels = rw (before_irrefl side price)

pub cut_level-head :
    (side : Side) (price : ℤ) (queue old : List String) (levels : Levels)
    → cut_level side price queue ((price, old) ∷ levels) ≡ tail_levels price queue levels
unfolding erase_key assign
cut_level-head side price [] old levels = rw (before_irrefl side price)
cut_level-head side price (x ∷ queue) old levels = rw (before_irrefl side price)

pub remove_first-head : (x : String) (queue : List String) → remove_first x (x ∷ queue) ≡ queue
unfolding remove_first
remove_first-head x queue = rw (eq_self x)
