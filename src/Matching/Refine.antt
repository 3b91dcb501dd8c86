-- ===== src/Matching/Refine.antt =====
-- The matching loop implements `take_offers`, ends within its fuel, and keeps the books well formed.
use collections.Prelude.{
  ℕ, zero, suc, ◌+◌, ◌≤◌, true, false, some, List, [], ◌∷◌, ◌≡◌, refl, string_eq, arith, subst,
  subst₂, sym, ◌∙◌, length, Bool-cases, inl, inr,
}
use collections.Prelude.Int.{ℤ, ltb_ℤ, leb_ℤ}
use collections.Prelude.Double.{epsilon}
use collections.Matching.Types.{Side, OrderRequest, Levels, LiveOrders}
use collections.Matching.Book.{levels_of, ◌>>=◌}
use collections.Matching.Match.{
  opposite, Progress, fill_front, match_best, match_against, beyond_limit, order_count,
}
use collections.Matching.Offers.{offers, take_offers}
use collections.Matching.Wellformed.{Owned, Agrees, LevelOk, LevelsOk}
use collections.Matching.OfferLaws.{tail_levels}
use collections.Matching.Step.{Filled, round_gone, round_kept}
use collections.Matching.Take.{leb_of_ltb, leb_of_not_ltb, take-done, take-beyond, kept_done}
use collections.Matching.Round.{
  queue_owned, others_ok, opposite_kept, Refines, outcome, stopped, offers-front, tail_levels-ok,
  fill, quantity_left, live_gone, trade, Agrees-gone, gone_Refines, kept_Refines,
}
use Prim.Native.String.{String}

order_count-tail :
    (price : ℤ) (queue : List String) (others : Levels)
    → order_count (tail_levels price queue others) ≡ length queue + order_count others
unfolding order_count
order_count-tail price [] others = omega arith
order_count-tail price (x ∷ queue) others = refl

-- The sides after a maker is gone.
gone_ok :
    (side : Side) (request : OrderRequest) (s : Progress) (price : ℤ) (reference : String)
    (queue : List String) (others : Levels)
    (levels : levels_of side s.engine ≡ (price, reference ∷ queue) ∷ others)
    (ok : LevelOk s.engine.live_orders side price (reference ∷ queue) others)
    (rest_ok : LevelsOk s.engine.live_orders side others)
    (opposite_ok : LevelsOk s.engine.live_orders
      (opposite side)
      (levels_of (opposite side) s.engine))
    (s₁ : Progress)
    → Filled side reference
        (tail_levels price queue others)
        (live_gone side request s price reference queue others levels ok rest_ok opposite_ok)
        (fill side request s price reference queue others levels ok rest_ok opposite_ok)
        (trade side request s price reference queue others levels ok rest_ok opposite_ok)
        s
        s₁
    → LevelsOk s₁.engine.live_orders side (tail_levels price queue others)
      × LevelsOk s₁.engine.live_orders (opposite side) (levels_of (opposite side) s₁.engine)
gone_ok side request s price reference queue others levels ok rest_ok opposite_ok s₁ f = (
  subst (λ live'. LevelsOk live' side (tail_levels price queue others)) (sym f.live_eq)
      (tail_levels-ok side price queue others s.engine.live_orders gone reference ok
        (queue_owned side request s price reference queue others levels ok rest_ok opposite_ok gone
          agree)
        (others_ok side request s price reference queue others levels ok rest_ok opposite_ok gone
          agree)),
  subst₂ (λ levels' live'. LevelsOk live' (opposite side) levels') (sym f.opposite_eq)
      (sym f.live_eq)
      (opposite_kept side request s price reference queue others levels ok rest_ok opposite_ok gone
        agree),
)
  where
    gone : LiveOrders
    gone = live_gone side request s price reference queue others levels ok rest_ok opposite_ok

    agree : Agrees reference s.engine.live_orders gone
    agree = Agrees-gone side request s price reference queue others levels ok rest_ok opposite_ok

outcome-empty :
    (side : Side) (request : OrderRequest) (s : Progress)
    → outcome side request s []
      ≡ record { fills = []; left = s.remaining; rest = offers s.engine.live_orders [] }
unfolding take_offers offers
outcome-empty side request s = refl

outcome-far :
    (side : Side) (request : OrderRequest) (s : Progress) (price : ℤ) (reference : String)
    (queue : List String) (others : Levels) (w : Owned s.engine.live_orders side price reference)
    → ltb_ℤ epsilon s.remaining ≡ true
    → beyond_limit side request price ≡ true
    → outcome side request s ((price, reference ∷ queue) ∷ others) ≡ record {
      fills = [];
      left = s.remaining;
      rest = offers s.engine.live_orders ((price, reference ∷ queue) ∷ others);
    }
outcome-far side request s price reference queue others w more far =
    rw (offers-front side price reference queue others s.engine.live_orders w) (
      take-beyond (beyond_limit side request) s.remaining _ _ (leb_of_ltb epsilon s.remaining more)
        far)

-- The ways one round of the loop can go.
module _ (fuel : ℕ) (side : Side) (request : OrderRequest) (s : Progress) where
  run-done : ltb_ℤ epsilon s.remaining ≡ false → match_against (suc fuel) side request s ≡ some s
  unfolding match_against
  run-done h = rw (h, match_against)

  module _ (more : ltb_ℤ epsilon s.remaining ≡ true) where
    run-empty : levels_of side s.engine ≡ [] → match_against (suc fuel) side request s ≡ some s
    unfolding match_against match_best
    run-empty at = rw (more, match_against) (rw at refl)

    module _ (price : ℤ) (queue : List String) (others : Levels)
        (at : levels_of side s.engine ≡ (price, queue) ∷ others) where
      run-far :
          beyond_limit side request price ≡ true → match_against (suc fuel) side request s ≡ some s
      unfolding match_against match_best
      run-far far = rw (more, match_against) (rw (at, match_best) (rw (far, match_best) refl))

      run-round :
          beyond_limit side request price ≡ false
          → match_against (suc fuel) side request s
            ≡ (fill_front side request queue s >>= match_against fuel side request)
      unfolding match_against match_best
      run-round near = rw (more, match_against) (rw (at, match_best) (rw (near, match_best) refl))

run-last :
    (fuel : ℕ) (side : Side) (request : OrderRequest) (s : Progress)
    → 1 ≤ fuel
    → ltb_ℤ epsilon s.remaining ≡ false
    → match_against fuel side request s ≡ some s
run-last zero side request s h done = absurd (omega arith)
run-last (suc fuel) side request s h done = run-done fuel side request s done

-- With a round for each order of the side and two more, the loop returns, and it does to the side
-- what `take_offers` does to its offers.
pub match_against-Refines :
    (fuel : ℕ) (side : Side) (request : OrderRequest) (s : Progress) (levels : Levels)
    → levels_of side s.engine ≡ levels
    → LevelsOk s.engine.live_orders side levels
    → LevelsOk s.engine.live_orders (opposite side) (levels_of (opposite side) s.engine)
    → order_count levels + 2 ≤ fuel
    → (s' : Progress) × (match_against fuel side request s ≡ some s')
      × Refines side request (outcome side request s levels) s s'
unfolding order_count
match_against-Refines zero side request s levels at ok opposite_ok enough = absurd (omega arith)
match_against-Refines (suc fuel) side request s [] at ok opposite_ok enough =
    elim (Bool-cases (ltb_ℤ epsilon s.remaining)) [
      | inr done ↦ (
        s,
        run-done fuel side request s done,
        stopped side request s [] at ok opposite_ok (
            take-done (beyond_limit side request) s.remaining _
              (leb_of_not_ltb epsilon s.remaining done)),
      )
      | inl more ↦ (
        s,
        run-empty fuel side request s more at,
        stopped side request s [] at ok opposite_ok (outcome-empty side request s),
      )
    ]
match_against-Refines (suc fuel) side request s ((price, []) ∷ others) at ok opposite_ok enough =
    cc (ok.0.occupied)
match_against-Refines (suc fuel) side request s ((price, reference ∷ queue) ∷ others) at ok
      opposite_ok enough =
    elim (Bool-cases (ltb_ℤ epsilon s.remaining)) [
      | inr done ↦ (
        s,
        run-done fuel side request s done,
        stopped side request s ((price, reference ∷ queue) ∷ others) at ok opposite_ok (
            take-done (beyond_limit side request) s.remaining _
              (leb_of_not_ltb epsilon s.remaining done)),
      )
      | inl more ↦ elim (Bool-cases (beyond_limit side request price)) [
        | inl far ↦ (
          s,
          run-far fuel side request s more price (reference ∷ queue) others at far,
          stopped side request s ((price, reference ∷ queue) ∷ others) at ok opposite_ok
              (outcome-far side request s price reference queue others ok.0.owned.0 more far),
        )
        | inr near ↦
            let round =
              run-round fuel side request s more price (reference ∷ queue) others at near in
            elim (Bool-cases (
              leb_ℤ
                (quantity_left side request s price reference queue others at ok.0 ok.1 opposite_ok)
                epsilon)) [
                  | inl small ↦
                      let (s₁, front, f) =
                        round_gone side request s price reference queue others at ok.0 small in
                      let sides =
                        gone_ok side request s price reference queue others at ok.0 ok.1 opposite_ok
                          s₁ f in
                      let (s', run, ih) =
                        match_against-Refines fuel side request s₁ (tail_levels price queue others)
                          f.levels_eq sides.0 sides.1
                          (omega (arith, order_count-tail price queue others)) in
                      (
                        s',
                        round ∙ (rw front run),
                        gone_Refines side request s price reference queue others at ok.0 ok.1
                            opposite_ok s₁ s' f ih (leb_of_ltb epsilon s.remaining more) near small,
                      )
                  | inr large ↦
                      let (s₁, front, f) =
                        round_kept side request s price reference queue others at ok.0 large in
                      (
                        s₁,
                        round
                            ∙ (rw front (
                                run-last fuel side request s₁ (omega arith) (
                                  rw f.remaining_eq (
                                    kept_done s.remaining ok.0.owned.0.order.open_quantity
                                      large)))),
                        kept_Refines side request s price reference queue others at ok.0 ok.1
                            opposite_ok s₁ f (leb_of_ltb epsilon s.remaining more) near large,
                      )
                ]
      ]
    ]
