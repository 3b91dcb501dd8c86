-- ===== src/Matching/Round.antt =====
-- One round of the matching loop, on the offers of the makers: what it leaves refines the
-- specification if what follows does.
use collections.Prelude.{
  true, false, none, List, [], ◌∷◌, ◌++◌, ◌≡◌, refl, All, string_eq, arith, ◌==◌, subst, subst₂,
  sym, ap, ◌∙◌, map, append_assoc, append-nil, Bool-cases, inl, inr, eq→≡,
}
use collections.Prelude.Int.{ℤ, ◌-ℤ◌, leb_ℤ}
use collections.Prelude.Double.{epsilon}
use collections.Prelude.Dict.{lookup, erase, lookup-insert, lookup-erase}
use collections.Matching.Types.{Side, OrderRequest, Trade, Levels, LiveOrders}
use collections.Matching.Book.{levels_of}
use collections.Matching.Match.{opposite, Progress, trade_with, beyond_limit}
use collections.Matching.Offers.{Offer, Outcome, queue_offers, offers, take_offers, trade_of}
use collections.Matching.Wellformed.{
  Owned, NotIn, Apart, Agrees, LevelOk, LevelsOk, insert-Agrees, erase-Agrees, Agrees-trans,
  All-Owned-agree, LevelsOk-agree, Apart-opposite, Apart-later, NotIn-distinct,
}
use collections.Matching.OfferLaws.{
  tail_levels, offers-tail_levels, queue_offers-agree, offers-agree,
}
use collections.Matching.Step.{Filled, fill_of, left_of, live_of, left_Owned}
use collections.Matching.Take.{take-gone, take-kept}
use Prim.Native.String.{String}

-- What the loop has made of `s` when it stops at `s'`, against the outcome on the offers.
pub record Refines (side : Side) (request : OrderRequest) (spec : Outcome) (s s' : Progress)
    : Type 0 where
  pub left_eq : s'.remaining ≡ spec.left
  pub trades_eq : s'.trades ≡ s.trades ++ map (trade_of request) spec.fills
  pub rest_eq : offers s'.engine.live_orders (levels_of side s'.engine) ≡ spec.rest
  pub side_ok : LevelsOk s'.engine.live_orders side (levels_of side s'.engine)
  pub opposite_eq : levels_of (opposite side) s'.engine ≡ levels_of (opposite side) s.engine
  pub opposite_ok :
      LevelsOk s'.engine.live_orders (opposite side) (levels_of (opposite side) s'.engine)
  pub fresh :
      (x : String) → lookup x s.engine.live_orders ≡ none → lookup x s'.engine.live_orders ≡ none

-- The outcome on the offers of the side.
abbrev pub outcome : Side → OrderRequest → Progress → Levels → Outcome
outcome side request s levels =
    take_offers (beyond_limit side request) s.remaining (offers s.engine.live_orders levels)

-- The loop stops where it is.
pub stopped :
    (side : Side) (request : OrderRequest) (s : Progress) (levels : Levels)
    → levels_of side s.engine ≡ levels
    → LevelsOk s.engine.live_orders side levels
    → LevelsOk s.engine.live_orders (opposite side) (levels_of (opposite side) s.engine)
    → outcome side request s levels
      ≡ record { fills = []; left = s.remaining; rest = offers s.engine.live_orders levels }
    → Refines side request (outcome side request s levels) s s
stopped side request s levels at ok opposite_ok e =
    subst (λ spec. Refines side request spec s s) (sym e)
      (record {
        left_eq = refl;
        trades_eq = sym (append-nil s.trades);
        rest_eq = rw at;
        side_ok = rw at ok;
        opposite_eq = refl;
        opposite_ok = opposite_ok;
        fresh = λ x h. h;
      })

-- The offers of a level in front: its first order, and the rest.
abbrev pub front_offer :
    (side : Side) (price : ℤ) (reference : String) (live : LiveOrders)
    → Owned live side price reference
    → Offer
front_offer side price reference live w = record {
  reference = reference;
  price = price;
  quantity = w.order.open_quantity;
}

pub offers-front :
    (side : Side) (price : ℤ) (reference : String) (queue : List String) (others : Levels)
    (live : LiveOrders) (w : Owned live side price reference)
    → offers live ((price, reference ∷ queue) ∷ others)
      ≡ front_offer side price reference live w
        ∷ (queue_offers live price queue ++ offers live others)
unfolding offers queue_offers
offers-front side price reference queue others live w = rw (w.at, queue_offers)

pub tail_levels-ok :
    (side : Side) (price : ℤ) (queue : List String) (others : Levels) (live live' : LiveOrders)
    (first : String)
    → LevelOk live side price (first ∷ queue) others
    → All (Owned live' side price) queue
    → LevelsOk live' side others
    → LevelsOk live' side (tail_levels price queue others)
tail_levels-ok side price [] others live live' first ok owned rest = rest
tail_levels-ok side price (x ∷ queue) others live live' first ok owned rest = (
  record { occupied = refl; owned = owned; distinct = ok.distinct.1; ordered = ok.ordered },
  rest,
)

-- One round before the rest of the loop.
module _ (side : Side) (request : OrderRequest) (s : Progress) (price : ℤ) (reference : String)
    (queue : List String) (others : Levels)
    (levels : levels_of side s.engine ≡ (price, reference ∷ queue) ∷ others)
    (ok : LevelOk s.engine.live_orders side price (reference ∷ queue) others)
    (rest_ok : LevelsOk s.engine.live_orders side others)
    (opposite_ok : LevelsOk s.engine.live_orders
      (opposite side)
      (levels_of (opposite side) s.engine)) where
  abbrev pub live : LiveOrders
  live = s.engine.live_orders

  abbrev pub fill : ℤ
  fill = fill_of side request s price reference queue others levels ok

  abbrev pub quantity_left : ℤ
  quantity_left = ok.owned.0.order.open_quantity -ℤ fill

  abbrev pub live_kept : LiveOrders
  live_kept = live_of side request s price reference queue others levels ok

  abbrev pub live_gone : LiveOrders
  live_gone = erase reference live_kept

  abbrev pub trade : Trade
  trade = trade_with request ok.owned.0.order fill

  pub Agrees-kept : Agrees reference live live_kept
  Agrees-kept =
      insert-Agrees reference (left_of side request s price reference queue others levels ok) live

  pub Agrees-gone : Agrees reference live live_gone
  Agrees-gone =
      Agrees-trans reference live live_kept live_gone Agrees-kept (erase-Agrees reference live_kept)

  pub apart_queue : NotIn reference queue
  apart_queue = NotIn-distinct reference queue ok.distinct.0

  pub Apart-others : Apart reference others
  Apart-others = Apart-later live side price reference ok.owned.0 others ok.ordered rest_ok

  pub Apart-opposite_levels : Apart reference (levels_of (opposite side) s.engine)
  Apart-opposite_levels =
      Apart-opposite live side price reference ok.owned.0 (levels_of (opposite side) s.engine)
        opposite_ok

  -- The levels and the offers after the round, for either state of the live orders.
  module _ (live' : LiveOrders) (agree : Agrees reference live live') where
    pub others_ok : LevelsOk live' side others
    others_ok = LevelsOk-agree reference live live' agree side others Apart-others rest_ok

    pub queue_owned : All (Owned live' side price) queue
    queue_owned = All-Owned-agree reference live live' agree side price queue apart_queue ok.owned.1

    pub opposite_kept : LevelsOk live' (opposite side) (levels_of (opposite side) s.engine)
    opposite_kept =
        LevelsOk-agree reference live live' agree (opposite side)
          (levels_of (opposite side) s.engine) Apart-opposite_levels opposite_ok

    later_offers :
        queue_offers live' price queue ++ offers live' others
        ≡ queue_offers live price queue ++ offers live others
    later_offers = rw (
      queue_offers-agree reference live live' agree price queue apart_queue,
      offers-agree reference live live' agree others Apart-others,
    )

  pub fresh_gone : (x : String) → lookup x live ≡ none → lookup x live_gone ≡ none
  fresh_gone x h = ground (
    arith,
    lookup-erase reference x live_kept,
    lookup-insert reference x (left_of side request s price reference queue others levels ok) live,
  )

  pub fresh_kept : (x : String) → lookup x live ≡ none → lookup x live_kept ≡ none
  fresh_kept x h = elim (Bool-cases (reference == x)) [
    | inl e ↦ cc (ok.owned.0.at, eq→≡ reference x e)
    | inr ne ↦ Agrees-kept x ne ∙ h
  ]

  pub named_trade :
      trade
      ≡ trade_of request
          (record (front_offer side price reference live ok.owned.0) { quantity = fill })
  named_trade = cc (ok.owned.0.named, ok.owned.0.priced)

  abbrev pub head : Offer
  head = front_offer side price reference live ok.owned.0

  abbrev pub later : List Offer
  later = queue_offers live price queue ++ offers live others

  abbrev pub spec : Outcome
  spec = outcome side request s ((price, reference ∷ queue) ∷ others)

  -- The rest of the outcome, from the state after the round.
  pub outcome-after :
      (s₁ : Progress) (live' : LiveOrders)
      → Agrees reference live live'
      → s₁.remaining ≡ s.remaining -ℤ fill
      → s₁.engine.live_orders ≡ live'
      → outcome side request s₁ (tail_levels price queue others)
        ≡ take_offers (beyond_limit side request) (s.remaining -ℤ fill) later
  outcome-after s₁ live' agree left at =
      rw left
        (rw at (rw (offers-tail_levels live' price queue others, later_offers live' agree) refl))

  pub gone_Refines :
      (s₁ s' : Progress)
      → Filled side reference (tail_levels price queue others) live_gone fill trade s s₁
      → Refines side request (outcome side request s₁ (tail_levels price queue others)) s₁ s'
      → leb_ℤ s.remaining epsilon ≡ false
      → beyond_limit side request price ≡ false
      → leb_ℤ quantity_left epsilon ≡ true
      → Refines side request spec s s'
  gone_Refines s₁ s' f ih more near small =
      let after = outcome-after s₁ live_gone Agrees-gone f.remaining_eq f.live_eq in
      let whole =
        ap (take_offers (beyond_limit side request) s.remaining)
          (offers-front side price reference queue others live ok.owned.0)
        ∙ take-gone (beyond_limit side request) s.remaining head later more near small in
      let ih' = subst (λ o. Refines side request o s₁ s') after ih in
      subst (λ o. Refines side request o s s') (sym whole)
        (record {
          left_eq = ih'.left_eq;
          trades_eq =
              ih'.trades_eq
              ∙ ap
                  (λ ts.
                    ts
                    ++ map (trade_of request)
                        (take_offers (beyond_limit side request) (s.remaining -ℤ fill) later).fills)
                  f.trades_eq
              ∙ append_assoc s.trades (trade ∷ []) _
              ∙ ap
                  (λ t.
                    s.trades
                    ++ t
                      ∷ map (trade_of request)
                          (take_offers (beyond_limit side request) (s.remaining -ℤ fill)
                            later).fills)
                  named_trade;
          rest_eq = ih'.rest_eq;
          side_ok = ih'.side_ok;
          opposite_eq = ih'.opposite_eq ∙ f.opposite_eq;
          opposite_ok = ih'.opposite_ok;
          fresh = λ x h. ih'.fresh x (rw f.live_eq (fresh_gone x h));
        })

  pub kept_Refines :
      (s₁ : Progress)
      → Filled side reference ((price, reference ∷ queue) ∷ others) live_kept fill trade s s₁
      → leb_ℤ s.remaining epsilon ≡ false
      → beyond_limit side request price ≡ false
      → leb_ℤ quantity_left epsilon ≡ false
      → Refines side request spec s s₁
  unfolding left_Owned
  kept_Refines s₁ f more near large =
      let whole =
        ap (take_offers (beyond_limit side request) s.remaining)
          (offers-front side price reference queue others live ok.owned.0)
        ∙ take-kept (beyond_limit side request) s.remaining head later more near large in
      let owned = left_Owned side request s price reference queue others levels ok large in
      subst (λ o. Refines side request o s s₁) (sym whole)
        (record {
          left_eq = f.remaining_eq;
          trades_eq = f.trades_eq ∙ ap (λ t. s.trades ++ t ∷ []) named_trade;
          rest_eq =
              rw (f.levels_eq, f.live_eq)
                (offers-front side price reference queue others live_kept owned
                  ∙ ap (λ os. front_offer side price reference live_kept owned ∷ os)
                      (later_offers live_kept Agrees-kept));
          side_ok =
              subst₂ (λ levels' live'. LevelsOk live' side levels') (sym f.levels_eq)
                (sym f.live_eq)
                (
                  record {
                    occupied = refl;
                    owned = (owned, queue_owned live_kept Agrees-kept);
                    distinct = ok.distinct;
                    ordered = ok.ordered;
                  },
                  others_ok live_kept Agrees-kept,
                );
          opposite_eq = f.opposite_eq;
          opposite_ok = rw (f.opposite_eq, f.live_eq) (opposite_kept live_kept Agrees-kept);
          fresh = λ x h. rw f.live_eq (fresh_kept x h);
        })
