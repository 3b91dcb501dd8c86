-- ===== src/Matching/Finalize.antt =====
-- What the finalizing steps of an order make of the engine and the result.
use collections.Prelude.{
  Bool, true, false, ◌&&◌, ◌||◌, not, none, some, ◌≡◌, refl, string_eq, if◌then◌else◌, ◌∙◌,
  Bool-cases, inl, inr,
}
use collections.Prelude.Int.{ℤ, pos, ◌-ℤ◌, ◌≤ℤ◌, ◌<ℤ◌, ltb_ℤ, leb_ℤ→<ℤ, ≤ℤ→ltb_ℤ}
use collections.Prelude.Double.{epsilon, fabs}
use collections.Prelude.Dict.{lookup}
use collections.Matching.Types.{Side, buy, sell, OrderRequest, MatchResult, Engine}
use collections.Matching.Book.{is_zero, levels_of, push_back, add_resting_order, is_limit}
use collections.Matching.Match.{opposite}
use collections.Matching.Engine.{is_ioc, finalize_limit_result, finalize_market_result}
use collections.Matching.Offers.{offers}
use collections.Matching.Wellformed.{IsWellformed}
use collections.Matching.OfferLaws.{offers-agree}
use collections.Matching.Rest.{Apart-fresh, emplace-Agrees}
use collections.Matching.Submit.{
  SameBooks, event-SameBooks, SameBooks-IsWellformed, side_ok, resting, add_resting_order-parts,
  add_resting_order-IsWellformed, rest_lookup,
}

-- Whether an order of a kind rests what is left of it.
abbrev pub rests : OrderRequest → ℤ → Bool
rests request left = is_limit request.order_type && (not (is_zero left) && not (is_ioc request.tif))

pub whole_of : (a b : Bool) → a && not b ≡ false → a ≡ true → b ≡ true
whole_of true true h k = refl
whole_of true false h k = cc
whole_of false b h k = cc

-- What the finalizing step makes of the engine after matching.
pub record Finalized (request : OrderRequest) (left : ℤ) (given : MatchResult) (does_rest : Bool)
    (e e' : Engine) (r : MatchResult) : Type 0 where
  pub trades_eq : r.trades ≡ given.trades
  pub remaining_eq : r.remaining_quantity ≡ left
  pub executed_eq : r.executed_quantity ≡ request.quantity -ℤ left
  pub wellformed : IsWellformed e'
  pub rests_eq :
      lookup request.order_id e'.live_orders
      ≡ (if does_rest then some (resting request left) else none)
  pub maker_offers :
      offers e'.live_orders (levels_of (opposite request.side) e')
      ≡ offers e.live_orders (levels_of (opposite request.side) e)
  pub taker_levels : levels_of request.side e' ≡ (
      if does_rest
      then push_back request.side request.price request.order_id (levels_of request.side e)
      else levels_of request.side e)

pub same_levels :
    (side : Side) {e e' : Engine} → SameBooks e e' → levels_of side e' ≡ levels_of side e
same_levels buy same = same.bids_eq
same_levels sell same = same.asks_eq

pub nonzero_large : (left : ℤ) → pos 0 ≤ℤ left → is_zero left ≡ false → epsilon <ℤ left
unfolding is_zero fabs
nonzero_large left h z = leb_ℤ→<ℤ left epsilon (rw (≤ℤ→ltb_ℤ left (pos 0) h) at z)

-- An event is all that follows.
module _ (request : OrderRequest) (left : ℤ) (given : MatchResult) (e : Engine) where
  pub only_event :
      {e' : Engine} (r : MatchResult)
      → IsWellformed e
      → lookup request.order_id e.live_orders ≡ none
      → SameBooks e e'
      → r.trades ≡ given.trades
      → r.remaining_quantity ≡ left
      → r.executed_quantity ≡ request.quantity -ℤ left
      → Finalized request left given false e e' r
  only_event {e'} r w fresh same t m x = record {
    trades_eq = t;
    remaining_eq = m;
    executed_eq = x;
    wellformed = SameBooks-IsWellformed same w;
    rests_eq = rw same.live_eq fresh;
    maker_offers = rw (same_levels (opposite request.side) same, same.live_eq);
    taker_levels = same_levels request.side same;
  }

  pub then_rests :
      {e' : Engine} (r : MatchResult)
      → IsWellformed e
      → lookup request.order_id e.live_orders ≡ none
      → epsilon <ℤ left
      → SameBooks (add_resting_order request left e) e'
      → r.trades ≡ given.trades
      → r.remaining_quantity ≡ left
      → r.executed_quantity ≡ request.quantity -ℤ left
      → Finalized request left given true e e' r
  then_rests {e'} r w fresh large same t m x =
      let (levels, others, live) = add_resting_order-parts request left e in
      record {
        trades_eq = t;
        remaining_eq = m;
        executed_eq = x;
        wellformed =
            SameBooks-IsWellformed same
              (add_resting_order-IsWellformed request left e fresh large w);
        rests_eq = rw (same.live_eq ∙ live) (rest_lookup request left e fresh);
        maker_offers =
            rw (same_levels (opposite request.side) same ∙ others, same.live_eq ∙ live)
              (offers-agree request.order_id e.live_orders _
                (emplace-Agrees request.order_id (resting request left) e.live_orders fresh)
                (levels_of (opposite request.side) e)
                (Apart-fresh e.live_orders request.order_id fresh (opposite request.side)
                  (levels_of (opposite request.side) e) (side_ok (opposite request.side) w)));
        taker_levels = same_levels request.side same ∙ levels;
      }

  pub finalize_limit_lem :
      IsWellformed e
      → lookup request.order_id e.live_orders ≡ none
      → pos 0 ≤ℤ left
      → let (e', r) = finalize_limit_result request left given e in
        Finalized request left given (not (is_zero left) && not (is_ioc request.tif)) e e' r
  unfolding finalize_limit_result
  finalize_limit_lem w fresh positive = elim (Bool-cases (is_zero left)) [
    | inl z ↦ rw z (only_event _ w fresh (event-SameBooks _ _ _ _ _) refl refl refl)
    | inr nz ↦ rw nz (elim (Bool-cases (is_ioc request.tif)) [
      | inl i ↦ rw i (only_event _ w fresh (event-SameBooks _ _ _ _ _) refl refl refl)
      | inr ni ↦ rw ni (
          then_rests _ w fresh (nonzero_large left positive nz) (event-SameBooks _ _ _ _ _) refl
            refl refl)
    ])
  ]

  pub finalize_market_lem :
      IsWellformed e
      → lookup request.order_id e.live_orders ≡ none
      → let (e', r) = finalize_market_result request left given e in
        Finalized request left given false e e' r
  unfolding finalize_market_result
  finalize_market_lem w fresh = elim (Bool-cases (is_zero left)) [
    | inl z ↦ rw z (only_event _ w fresh (event-SameBooks _ _ _ _ _) refl refl refl)
    | inr nz ↦
        rw nz (elim (Bool-cases (is_ioc request.tif || ltb_ℤ (pos 0) (request.quantity -ℤ left))) [
          | inl i ↦ rw i (only_event _ w fresh (event-SameBooks _ _ _ _ _) refl refl refl)
          | inr ni ↦ rw ni (only_event _ w fresh (event-SameBooks _ _ _ _ _) refl refl refl)
        ])
  ]
