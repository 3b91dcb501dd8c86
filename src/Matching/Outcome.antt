-- ===== src/Matching/Outcome.antt =====
-- `submit` on well-formed books: it returns, and it refuses the order and changes no book, or takes
-- from the makers' offers what `take_offers` takes and rests what is left where the order says so.
use collections.Matching.Finalize.{
  rests, whole_of, Finalized, finalize_limit_lem, finalize_market_lem,
}
use collections.Prelude.{
  Bool, true, false, ◌&&◌, ◌||◌, not, Option, none, some, [], ◌≡◌, refl, string_eq, arith,
  if◌then◌else◌, subst, subst₂, ap, ◌∙◌, Bool-cases, Option-cases, inl, inr, ◌⊎◌, map,
}
use collections.Prelude.Int.{ℤ, pos, ◌-ℤ◌, ◌≤ℤ◌, leb_ℤ, leb_ℤ→<ℤ}
use collections.Prelude.Double.{epsilon}
use collections.Prelude.Dict.{lookup, contains}
use collections.Prelude.Text.{is_empty}
use collections.Matching.Types.{
  Side, buy, sell, limit, market, OrderType, rejected, RejectReason, OrderRequest, MatchResult,
  Engine, insufficient_liquidity, would_cross_post_only, duplicate_order_id,
}
use collections.Matching.Book.{levels_of, push_back, is_limit}
use collections.Matching.Match.{opposite, can_fill_fully, would_cross, beyond_limit}
use collections.Matching.Engine.{
  is_fok, is_gtx, finalize_limit_result, finalize_market_result, make_accepted_result,
  make_rejected_result, with_trades, reject, kills, execute, handle, handle_limit_order,
  handle_market_order, submit,
}
use collections.Matching.Offers.{offers, trade_of}
use collections.Matching.Wellformed.{IsWellformed}
use collections.Matching.Killing.{offers-large, scan_levels-offers}
use collections.Matching.TakeLaws.{take_nonneg, scan_offers-exact}
use collections.Matching.Submit.{
  SameBooks, event-SameBooks, SameBooks-IsWellformed, side_ok, resting, outcome_of,
  match_request-Refines, matched-IsWellformed,
}

-- The order was refused: only its event was emitted.
pub record Refused (request : OrderRequest) (e e' : Engine) (r : MatchResult) : Type 0 where
  pub accepted_eq : r.is_accepted ≡ false
  pub status_eq : r.final_status ≡ rejected
  pub trades_eq : r.trades ≡ []
  pub executed_eq : r.executed_quantity ≡ pos 0
  pub remaining_eq : r.remaining_quantity ≡ request.quantity
  pub same : SameBooks e e'

-- The order went through the matching loop.
pub record Executed (request : OrderRequest) (e e' : Engine) (r : MatchResult) : Type 0 where
  pub trades_eq : r.trades ≡ map (trade_of request) (outcome_of request e).fills
  pub remaining_eq : r.remaining_quantity ≡ (outcome_of request e).left
  pub executed_eq : r.executed_quantity ≡ request.quantity -ℤ (outcome_of request e).left
  pub rests_eq : lookup request.order_id e'.live_orders ≡ (
      if rests request (outcome_of request e).left
      then some (resting request (outcome_of request e).left)
      else none)
  pub maker_offers :
      offers e'.live_orders (levels_of (opposite request.side) e') ≡ (outcome_of request e).rest
  pub taker_levels : levels_of request.side e' ≡ (
      if rests request (outcome_of request e).left
      then push_back request.side request.price request.order_id (levels_of request.side e)
      else levels_of request.side e)
  pub fills_whole : is_fok request.tif ≡ true → leb_ℤ (outcome_of request e).left epsilon ≡ true
  pub posts_only :
      is_limit request.order_type && is_gtx request.tif ≡ true → would_cross request e ≡ false

abbrev pub Answered : OrderRequest → Engine → Option (Engine × MatchResult) → Type 0
Answered request e answer =
    (e' : Engine) × (r : MatchResult) × (answer ≡ some (e', r))
    × IsWellformed e'
    × (Refused request e e' r ⊎ Executed request e e' r)

reject-Answered :
    (request : OrderRequest) (why : RejectReason) (e : Engine)
    → IsWellformed e
    → Answered request e (some (reject request why e))
unfolding make_rejected_result
reject-Answered request why e w = (
  _,
  _,
  refl,
  SameBooks-IsWellformed (event-SameBooks request.order_id rejected why request.quantity e) w,
  inl (record {
    accepted_eq = refl;
    status_eq = refl;
    trades_eq = refl;
    executed_eq = refl;
    remaining_eq = refl;
    same = event-SameBooks request.order_id rejected why request.quantity e;
  }),
)

twice_opposite :
    (side : Side) (e e' : Engine)
    → levels_of (opposite (opposite side)) e' ≡ levels_of (opposite (opposite side)) e
    → levels_of side e' ≡ levels_of side e
twice_opposite buy e e' h = h
twice_opposite sell e e' h = h

module _ (request : OrderRequest) (e : Engine) (w : IsWellformed e)
    (fresh : lookup request.order_id e.live_orders ≡ none)
    (positive : pos 0 ≤ℤ request.quantity) where
  abbrev Finalizes : (OrderRequest → ℤ → MatchResult → Engine → Engine × MatchResult) → Type 0
  Finalizes finalize =
      (left : ℤ) (given : MatchResult) (e₁ : Engine)
      → IsWellformed e₁
      → lookup request.order_id e₁.live_orders ≡ none
      → pos 0 ≤ℤ left
      → let (e', r) = finalize request left given e₁ in
        Finalized request left given (rests request left) e₁ e' r

  kills_lem :
      kills request e ≡ some (is_fok request.tif && not (leb_ℤ (outcome_of request e).left epsilon))
  unfolding kills can_fill_fully
  kills_lem = elim (Bool-cases (is_fok request.tif)) [
    | inl k ↦ rw k (
        rw
          (scan_levels-offers e.live_orders (opposite request.side) request request.quantity
            (levels_of (opposite request.side) e) (side_ok (opposite request.side) w))
          (rw
            (scan_offers-exact (beyond_limit (opposite request.side) request) request.quantity
              (offers e.live_orders (levels_of (opposite request.side) e))
              (offers-large e.live_orders (opposite request.side)
                (levels_of (opposite request.side) e) (side_ok (opposite request.side) w)))
            refl))
    | inr k ↦ rw k refl
  ]

  execute_lem :
      (finalize : OrderRequest → ℤ → MatchResult → Engine → Engine × MatchResult)
      → Finalizes finalize
      → (is_fok request.tif ≡ true → leb_ℤ (outcome_of request e).left epsilon ≡ true)
      → (is_limit request.order_type && is_gtx request.tif ≡ true → would_cross request e ≡ false)
      → Answered request e (execute finalize request e)
  unfolding execute make_accepted_result
  execute_lem finalize step whole post =
      let (s, run, m) = match_request-Refines request e w in
      let f =
        step s.remaining (with_trades s (make_accepted_result request.quantity)) s.engine
          (matched-IsWellformed request e s m) (m.fresh request.order_id fresh)
          (rw m.left_eq (
            take_nonneg (beyond_limit (opposite request.side) request) request.quantity _
              positive)) in
      let out =
        finalize request s.remaining (with_trades s (make_accepted_result request.quantity))
          s.engine in
      (
        out.0,
        out.1,
        rw run refl,
        f.wellformed,
        inr (record {
          trades_eq = f.trades_eq ∙ m.trades_eq;
          remaining_eq = f.remaining_eq ∙ m.left_eq;
          executed_eq = f.executed_eq ∙ ap (λ x. request.quantity -ℤ x) m.left_eq;
          rests_eq =
              subst
                (λ x.
                  lookup request.order_id out.0.live_orders
                  ≡ (if rests request x then some (resting request x) else none))
                m.left_eq f.rests_eq;
          maker_offers = f.maker_offers ∙ m.rest_eq;
          taker_levels =
              subst₂
                (λ x l. levels_of request.side out.0 ≡ (
                  if rests request x
                  then push_back request.side request.price request.order_id l
                  else l))
                m.left_eq (twice_opposite request.side e s.engine m.opposite_eq) f.taker_levels;
          fills_whole = whole;
          posts_only = post;
        }),
      )

  -- The handlers.
  handle_market_Answered :
      request.order_type ≡ market → Answered request e (handle_market_order request e)
  unfolding handle_market_order
  handle_market_Answered kind =
      rw (kills_lem, handle_market_order)
        (elim (Bool-cases (is_fok request.tif && not (leb_ℤ (outcome_of request e).left epsilon))) [
          | inl killed ↦ rw killed (reject-Answered request insufficient_liquidity e w)
          | inr alive ↦ rw alive (
              execute_lem finalize_market_result
                (λ left given e₁ w₁ f₁ p. market_step kind left given e₁ w₁ f₁)
                (whole_of (is_fok request.tif) (leb_ℤ (outcome_of request e).left epsilon) alive)
                (λ h. cc (kind, h)))
        ])
    where
      market_step :
          request.order_type ≡ market
          → (left : ℤ) (given : MatchResult) (e₁ : Engine) → IsWellformed e₁
          → lookup request.order_id e₁.live_orders ≡ none
          → let (e', r) = finalize_market_result request left given e₁ in
            Finalized request left given (rests request left) e₁ e' r
      market_step kind left given e₁ w₁ f₁ =
          subst
            (λ b.
              let (e', r) = finalize_market_result request left given e₁ in
              Finalized request left given b e₁ e' r)
            (rw kind refl) (finalize_market_lem request left given e₁ w₁ f₁)

  handle_limit_Answered :
      request.order_type ≡ limit → Answered request e (handle_limit_order request e)
  unfolding handle_limit_order
  handle_limit_Answered kind = elim (Bool-cases (is_gtx request.tif && would_cross request e)) [
    | inl posts ↦ rw posts (reject-Answered request would_cross_post_only e w)
    | inr free ↦ rw free (
        rw (kills_lem, handle_limit_order)
          (elim (Bool-cases
            (is_fok request.tif && not (leb_ℤ (outcome_of request e).left epsilon))) [
              | inl killed ↦ rw killed (reject-Answered request insufficient_liquidity e w)
              | inr alive ↦ rw alive (
                  execute_lem finalize_limit_result (limit_step kind)
                    (whole_of (is_fok request.tif) (leb_ℤ (outcome_of request e).left epsilon)
                      alive)
                    (posts_of kind (is_gtx request.tif) (would_cross request e) free))
            ]))
  ]
    where
      limit_step : request.order_type ≡ limit → Finalizes finalize_limit_result
      limit_step kind left given e₁ w₁ f₁ p =
          subst
            (λ b.
              let (e', r) = finalize_limit_result request left given e₁ in
              Finalized request left given b e₁ e' r)
            (rw kind refl) (finalize_limit_lem request left given e₁ w₁ f₁ p)

      posts_of :
          request.order_type ≡ limit
          → (a b : Bool) → a && b ≡ false
          → is_limit request.order_type && a ≡ true
          → b ≡ false
      posts_of kind true b h k = h
      posts_of kind false b h k = cc (kind, k)

unchanged_Answered :
    (request : OrderRequest) (e : Engine)
    → IsWellformed e
    → Answered request e (some (e, make_rejected_result insufficient_liquidity request.quantity))
unfolding make_rejected_result
unchanged_Answered request e w = (
  _,
  _,
  refl,
  w,
  inl (record {
    accepted_eq = refl;
    status_eq = refl;
    trades_eq = refl;
    executed_eq = refl;
    remaining_eq = refl;
    same = record { bids_eq = refl; asks_eq = refl; live_eq = refl };
  }),
)

-- On well-formed books `submit` returns, keeps them well formed, and refuses or executes the order.
pub submit-Answered :
    (request : OrderRequest) (e : Engine) → IsWellformed e → Answered request e (submit request e)
unfolding submit
submit-Answered request e w =
    elim (Bool-cases (is_empty request.order_id || leb_ℤ request.quantity (pos 0))) [
      | inl bad ↦ rw bad (unchanged_Answered request e w)
      | inr good ↦ rw good (elim (Option-cases (lookup request.order_id e.live_orders)) [
        | inr (order, live) ↦ rw (live, contains) (reject-Answered request duplicate_order_id e w)
        | inl fresh ↦
            rw (fresh, contains)
              (by_type request.order_type refl fresh
                (positive_of (is_empty request.order_id) request.quantity good))
      ])
    ]
  where
    by_type :
        (kind : OrderType)
        → request.order_type ≡ kind
        → lookup request.order_id e.live_orders ≡ none
        → pos 0 ≤ℤ request.quantity
        → Answered request e (handle kind request e)
    by_type limit kind fresh positive = handle_limit_Answered request e w fresh positive kind
    by_type market kind fresh positive = handle_market_Answered request e w fresh positive kind

    positive_of : (a : Bool) (q : ℤ) → a || leb_ℤ q (pos 0) ≡ false → pos 0 ≤ℤ q
    positive_of true q h = cc
    positive_of false q h = omega (arith, leb_ℤ→<ℤ q (pos 0) h)
