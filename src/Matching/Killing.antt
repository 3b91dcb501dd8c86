-- ===== src/Matching/Killing.antt =====
-- The test of a fill-or-kill order, `can_fill_fully`, against the test on the offers.
use collections.Prelude.{
  Bool, true, false, Option, none, some, List, [], ◌∷◌, ◌++◌, ◌≡◌, refl, All, All-append, string_eq,
  arith, Bool-cases, inl, inr, ◌∙◌,
}
use collections.Prelude.Int.{ℤ, ◌-ℤ◌, ◌<ℤ◌}
use collections.Prelude.Double.{epsilon}
use collections.Matching.Types.{Side, OrderRequest, Levels, LiveOrders}
use collections.Matching.Match.{
  beyond_limit, Scan, enough, missing, dangling, scan_queue, scan_levels,
}
use collections.Matching.Offers.{Offer, queue_offers, offers}
use collections.Matching.Wellformed.{Owned, LevelsOk}
use collections.Matching.TakeLaws.{scan_offers}
use Prim.Native.String.{String}

queue_offers-large :
    (live : LiveOrders) (side : Side) (price : ℤ) (queue : List String)
    → All (Owned live side price) queue
    → All (λ (offer : Offer). epsilon <ℤ offer.quantity) (queue_offers live price queue)
unfolding queue_offers
queue_offers-large live side price [] h = tt
queue_offers-large live side price (x ∷ queue) h =
    rw (h.0.at, queue_offers) (h.0.large, queue_offers-large live side price queue h.1)

-- Every offer of a well-formed side is larger than the tolerance.
pub offers-large :
    (live : LiveOrders) (side : Side) (levels : Levels)
    → LevelsOk live side levels
    → All (λ (offer : Offer). epsilon <ℤ offer.quantity) (offers live levels)
unfolding offers
offers-large live side [] h = tt
offers-large live side ((price, queue) ∷ levels) h =
    All-append (λ (offer : Offer). epsilon <ℤ offer.quantity) (queue_offers live price queue)
      (offers live levels) (queue_offers-large live side price queue h.0.owned)
      (offers-large live side levels h.1)

module _ (live : LiveOrders) (side : Side) (request : OrderRequest) where
  -- The answer of the test after the scan of a queue, where `later` offers follow.
  after_scan : List Offer → Scan → Option Bool
  after_scan later enough = some true
  after_scan later (missing left) = some (scan_offers (beyond_limit side request) left later)
  after_scan later dangling = none

  scan_queue-offers :
      (price left : ℤ) (queue : List String) (later : List Offer)
      → beyond_limit side request price ≡ false
      → All (Owned live side price) queue
      → after_scan later (scan_queue live left queue)
        ≡ some
            (scan_offers (beyond_limit side request) left (queue_offers live price queue ++ later))
  unfolding after_scan scan_queue scan_offers queue_offers
  scan_queue-offers price left [] later near h = refl
  scan_queue-offers price left (x ∷ queue) later near h = ground (
    arith,
    h.0.at,
    scan_queue-offers price (left -ℤ h.0.order.open_quantity) queue later near h.1,
  )

  scan_levels-near :
      (price left : ℤ) (queue : List String) (levels : Levels)
      → beyond_limit side request price ≡ false
      → ((rest : ℤ)
          → scan_levels side request live rest levels
            ≡ some (scan_offers (beyond_limit side request) rest (offers live levels)))
      → scan_levels side request live left ((price, queue) ∷ levels)
        ≡ after_scan (offers live levels) (scan_queue live left queue)
  unfolding scan_levels after_scan
  scan_levels-near price left queue levels near ih =
      rw (near, scan_levels) (by_scan (scan_queue live left queue))
    where
      by_scan :
          (scan : Scan)
          → (elim scan [
            | enough ↦ some true
            | missing rest ↦ scan_levels side request live rest levels
            | dangling ↦ none
          ])
            ≡ after_scan (offers live levels) scan
      by_scan enough = refl
      by_scan (missing rest) = ih rest
      by_scan dangling = refl

  scan_far :
      (left price : ℤ) (x : String) (queue : List String) (levels : Levels)
      → Owned live side price x
      → beyond_limit side request price ≡ true
      → scan_levels side request live left ((price, x ∷ queue) ∷ levels)
        ≡ some (
            scan_offers
              (beyond_limit side request)
              left
              (offers live ((price, x ∷ queue) ∷ levels)))
  unfolding scan_levels scan_offers offers queue_offers
  scan_far left price x queue levels w far = ground (arith, w.at)

  scan_whole :
      (left price : ℤ) (queue : List String) (levels : Levels)
      → some (
          scan_offers
            (beyond_limit side request)
            left
            (queue_offers live price queue ++ offers live levels))
        ≡ some
            (scan_offers (beyond_limit side request) left (offers live ((price, queue) ∷ levels)))
  unfolding offers
  scan_whole left price queue levels = refl

  -- On a well-formed side the test never meets a dangling reference, and it is the test on offers.
  pub scan_levels-offers :
      (left : ℤ) (levels : Levels)
      → LevelsOk live side levels
      → scan_levels side request live left levels
        ≡ some (scan_offers (beyond_limit side request) left (offers live levels))
  unfolding scan_levels scan_offers offers
  scan_levels-offers left [] h = refl
  scan_levels-offers left ((price, []) ∷ levels) h = cc (h.0.occupied)
  scan_levels-offers left ((price, x ∷ queue) ∷ levels) h =
      elim (Bool-cases (beyond_limit side request price)) [
        | inl far ↦ scan_far left price x queue levels h.0.owned.0 far
        | inr near ↦
            scan_levels-near price left (x ∷ queue) levels near
              (λ rest. scan_levels-offers rest levels h.1)
            ∙ scan_queue-offers price left (x ∷ queue) (offers live levels) near h.0.owned
            ∙ scan_whole left price (x ∷ queue) levels
      ]
