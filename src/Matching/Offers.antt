-- ===== src/Matching/Offers.antt =====
-- What the matching loops promise, with neither levels nor references: the orders of one side as
-- one list of offers, best price first and oldest first, from which an order takes in turn.
use collections.Prelude.{Bool, ◌||◌, none, some, List, [], ◌∷◌, ◌++◌, if◌then◌else◌, string_eq}
use collections.Prelude.Int.{ℤ, pos, ◌-ℤ◌, ◌+ℤ◌, leb_ℤ}
use collections.Prelude.Double.{epsilon}
use collections.Prelude.Dict.{lookup}
use collections.Matching.Types.{OrderRequest, Trade, Levels, LiveOrders}
use collections.Matching.Match.{min_ℤ}
use Prim.Native.String.{String}

pub record Offer : Type 0 where
  pub reference : String
  pub price : ℤ
  pub quantity : ℤ

unfoldable pub queue_offers : LiveOrders → ℤ → List String → List Offer
queue_offers live price [] = []
queue_offers live price (reference ∷ queue) = elim (lookup reference live) [
  | none ↦ queue_offers live price queue
  | some order ↦
      record { reference = reference; price = price; quantity = order.open_quantity }
      ∷ queue_offers live price queue
]

unfoldable pub offers : LiveOrders → Levels → List Offer
offers live [] = []
offers live ((price, queue) ∷ levels) = queue_offers live price queue ++ offers live levels

pub record Outcome : Type 0 where
  pub fills : List Offer
  pub left : ℤ
  pub rest : List Offer

-- Take from the offers in turn, until no more than the tolerance is left or a price is beyond the
-- limit. An offer with no more than the tolerance left is gone.
unfoldable pub take_offers : (ℤ → Bool) → ℤ → List Offer → Outcome
take_offers beyond left [] = record { fills = []; left = left; rest = [] }
take_offers beyond left (offer ∷ others) =
    let quantity = min_ℤ left offer.quantity in
    let fill = record offer { quantity = quantity } in
    let after = take_offers beyond (left -ℤ quantity) others in
    if leb_ℤ left epsilon || beyond offer.price
    then record { fills = []; left = left; rest = offer ∷ others }
    else if leb_ℤ (offer.quantity -ℤ quantity) epsilon
    then record after { fills = fill ∷ after.fills }
    else record {
      fills = fill ∷ [];
      left = left -ℤ quantity;
      rest = record offer { quantity = offer.quantity -ℤ quantity } ∷ others;
    }

abbrev pub trade_of : OrderRequest → Offer → Trade
trade_of request fill = record {
  maker_order_id = fill.reference;
  taker_order_id = request.order_id;
  price = fill.price;
  quantity = fill.quantity;
}

abbrev pub total : List Offer → ℤ
total [] = pos 0
total (offer ∷ others) = offer.quantity +ℤ total others
