-- ===== src/Matching/Trades.antt =====
-- The trades of a submitted order: quantities, prices and the order of the makers.
use collections.Prelude.{
  Bool, false, some, List, [], ◌∷◌, ◌++◌, ◌≡◌, refl, All, subst, subst₂, ap, inl, inr, ◌⊎◌, map,
}
use collections.Prelude.Int.{ℤ, pos, ◌-ℤ◌, ◌≤ℤ◌, ◌<ℤ◌, int_laws, ltb_ℤ→≤ℤ}
use collections.Prelude.Double.{epsilon}
use collections.Matching.Types.{Side, buy, sell, limit, OrderRequest, Trade, MatchResult, Engine}
use collections.Matching.Book.{levels_of}
use collections.Matching.Match.{opposite, beyond_limit}
use collections.Matching.Engine.{submit}
use collections.Matching.Offers.{Offer, offers, trade_of, take_offers}
use collections.Matching.Wellformed.{IsWellformed}
use collections.Matching.TakeLaws.{
  ticket, take_induction, take_prices, take_priority, take_positive,
}
use collections.Matching.Killing.{offers-large}
use collections.Matching.Submit.{side_ok, outcome_of}
use collections.Matching.Outcome.{Refused, Executed, submit-Answered}
use Prim.Native.String.{String}

module _ (request : OrderRequest) (e e' : Engine) (r : MatchResult) where
  pub answer_of :
      IsWellformed e
      → submit request e ≡ some (e', r)
      → IsWellformed e' × (Refused request e e' r ⊎ Executed request e e' r)
  answer_of w run =
      let (e₁, r₁, run₁, w₁, a) = submit-Answered request e w in
      let same_engine : e₁ ≡ e' = cc (run, run₁) in
      let same_result : r₁ ≡ r = cc (run, run₁) in
      (
        subst IsWellformed same_engine w₁,
        subst₂ (λ x y. Refused request e x y ⊎ Executed request e x y) same_engine same_result a,
      )

-- On well-formed books `submit` meets no undefined behaviour, its loop ends within the fuel, and the
-- books it leaves are well formed.
pub submit_returns :
    (request : OrderRequest) (e : Engine)
    → IsWellformed e
    → (e' : Engine) × (r : MatchResult) × (submit request e ≡ some (e', r)) × IsWellformed e'
submit_returns request e w =
    let (e', r, run, w', a) = submit-Answered request e w in (e', r, run, w')

-- What is left of a quantity after trades, one taken away after the other.
abbrev pub left_after : ℤ → List Trade → ℤ
left_after quantity [] = quantity
left_after quantity (trade ∷ trades) = left_after (quantity -ℤ trade.quantity) trades

left_after-fills :
    (request : OrderRequest) (beyond : ℤ → Bool) (left : ℤ) (given : List Offer)
    → let out = take_offers beyond left given in
      left_after left (map (trade_of request) out.fills) ≡ out.left
left_after-fills request beyond =
    take_induction beyond
      (λ left given out. left_after left (map (trade_of request) out.fills) ≡ out.left)
      (λ left given st. refl) (λ left offer others after more near ih. ih)
      (λ left offer others more near large. refl)

-- On well-formed books the remaining quantity of an order is what was requested, with the quantity
-- of each trade taken away in turn, and the executed quantity is what was requested without that.
pub submit_conserves :
    (request : OrderRequest) (e e' : Engine) (r : MatchResult)
    → IsWellformed e
    → submit request e ≡ some (e', r)
    → (r.remaining_quantity ≡ left_after request.quantity r.trades)
      × (r.executed_quantity ≡ request.quantity -ℤ left_after request.quantity r.trades)
submit_conserves request e e' r w run = elim (answer_of request e e' r w run).1 [
  | inl refused ↦ (
    rw (refused.trades_eq, refused.remaining_eq) refl,
    rw (refused.trades_eq, refused.executed_eq) (omega int_laws),
  )
  | inr done ↦
      let same =
        left_after-fills request (beyond_limit (opposite request.side) request) request.quantity
          (offers e.live_orders (levels_of (opposite request.side) e)) in
      (
        rw (done.trades_eq, done.remaining_eq, same) refl,
        rw (done.trades_eq, done.executed_eq, same) refl,
      )
]

All-map :
    (P : Trade → Type 0) (f : Offer → Trade) (xs : List Offer)
    → All (λ x. P (f x)) xs
    → All P (map f xs)
All-map P f [] h = tt
All-map P f (x ∷ xs) h = (h.0, All-map P f xs h.1)

All-imply :
    (P Q : Offer → Type 0) → ((x : Offer) → P x → Q x) → (xs : List Offer) → All P xs → All Q xs
All-imply P Q f [] h = tt
All-imply P Q f (x ∷ xs) h = (f x h.0, All-imply P Q f xs h.1)

-- A price that a limit order accepts, up to the tolerance.
abbrev pub Acceptable : Side → ℤ → ℤ → Type 0
Acceptable buy own price = price -ℤ own ≤ℤ epsilon
Acceptable sell own price = own -ℤ price ≤ℤ epsilon

within :
    (side : Side) (request : OrderRequest) (price : ℤ)
    → request.order_type ≡ limit
    → beyond_limit (opposite side) request price ≡ false
    → Acceptable side request.price price
unfolding beyond_limit
within buy request price kind h = ltb_ℤ→≤ℤ epsilon (price -ℤ request.price) (rw kind at h)
within sell request price kind h = ltb_ℤ→≤ℤ epsilon (request.price -ℤ price) (rw kind at h)

-- On well-formed books a limit order trades only at prices that are no worse than its own by more
-- than the tolerance, and every trade has a positive quantity and names the order as its taker.
pub submit_respects_limit :
    (request : OrderRequest) (e e' : Engine) (r : MatchResult)
    → IsWellformed e
    → request.order_type ≡ limit
    → submit request e ≡ some (e', r)
    → All
        (λ (trade : Trade).
          Acceptable request.side request.price trade.price
          × (pos 0 <ℤ trade.quantity)
          × (trade.taker_order_id ≡ request.order_id))
        r.trades
submit_respects_limit request e e' r w kind run = elim (answer_of request e e' r w run).1 [
  | inl refused ↦ rw refused.trades_eq tt
  | inr done ↦ rw done.trades_eq (
      All-map _ (trade_of request) (outcome_of request e).fills (
        zip_all (outcome_of request e).fills
          (take_prices (beyond_limit (opposite request.side) request) request.quantity _)
          (take_positive (beyond_limit (opposite request.side) request) request.quantity _ (
            offers-large e.live_orders (opposite request.side) _
              (side_ok (opposite request.side) w)))))
]
  where
    zip_all :
        (fills : List Offer)
        → All (λ (f : Offer). beyond_limit (opposite request.side) request f.price ≡ false) fills
        → All (λ (f : Offer). pos 0 <ℤ f.quantity) fills
        → All
            (λ (f : Offer).
              Acceptable request.side request.price f.price
              × (pos 0 <ℤ f.quantity)
              × (request.order_id ≡ request.order_id))
            fills
    zip_all [] h k = tt
    zip_all (f ∷ fills) h k =
        ((within request.side request f.price kind h.0, k.0, refl), zip_all fills h.1 k.1)

abbrev pub maker_of : Trade → String × ℤ
maker_of trade = (trade.maker_order_id, trade.price)

makers-map :
    (request : OrderRequest) (fills : List Offer)
    → map maker_of (map (trade_of request) fills) ≡ map ticket fills
makers-map request [] = refl
makers-map request (fill ∷ fills) = ap (λ x. ticket fill ∷ x) (makers-map request fills)

-- On well-formed books the makers of an order's trades are, each once and at its own price, the
-- first resting orders of the other side in price-time order.
pub submit_takes_in_order :
    (request : OrderRequest) (e e' : Engine) (r : MatchResult)
    → IsWellformed e
    → submit request e ≡ some (e', r)
    → (later : List (String × ℤ)) × (map ticket
          (offers e.live_orders (levels_of (opposite request.side) e))
        ≡ map maker_of r.trades ++ later)
submit_takes_in_order request e e' r w run = elim (answer_of request e e' r w run).1 [
  | inl refused ↦ (
    map ticket (offers e.live_orders (levels_of (opposite request.side) e)),
    rw refused.trades_eq,
  )
  | inr done ↦
      let (later, p) =
        take_priority (beyond_limit (opposite request.side) request) request.quantity
          (offers e.live_orders (levels_of (opposite request.side) e)) in
      (later, rw (done.trades_eq, makers-map request (outcome_of request e).fills) p)
]
