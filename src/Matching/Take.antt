-- ===== src/Matching/Take.antt =====
-- The steps of `take_offers`, one lemma for each way it goes on.
use collections.Prelude.{Bool, true, false, List, [], ◌∷◌, ◌≡◌, refl, arith, Bool-cases, inl, inr}
use collections.Prelude.Int.{ℤ, ◌-ℤ◌, ltb_ℤ, leb_ℤ, int_laws, leb_ℤ→<ℤ, ≤ℤ→ltb_ℤ}
use collections.Prelude.Double.{epsilon, epsilon-pos}
use collections.Matching.Match.{min_ℤ}
use collections.Matching.Offers.{Offer, take_offers}

pub leb_of_ltb : (a b : ℤ) → ltb_ℤ a b ≡ true → leb_ℤ b a ≡ false
leb_of_ltb a b h = ground arith

pub leb_of_not_ltb : (a b : ℤ) → ltb_ℤ a b ≡ false → leb_ℤ b a ≡ true
leb_of_not_ltb a b h = ground arith

module _ (beyond : ℤ → Bool) (left : ℤ) where
  pub take-done :
      (given : List Offer)
      → leb_ℤ left epsilon ≡ true
      → take_offers beyond left given ≡ record { fills = []; left = left; rest = given }
  unfolding take_offers
  take-done [] h = refl
  take-done (offer ∷ others) h = rw h

  pub take-nil : take_offers beyond left [] ≡ record { fills = []; left = left; rest = [] }
  unfolding take_offers
  take-nil = refl

  pub take-beyond :
      (offer : Offer) (others : List Offer)
      → leb_ℤ left epsilon ≡ false
      → beyond offer.price ≡ true
      → take_offers beyond left (offer ∷ others)
        ≡ record { fills = []; left = left; rest = offer ∷ others }
  unfolding take_offers
  take-beyond offer others h k = rw (h, k)

  pub take-gone :
      (offer : Offer) (others : List Offer)
      → leb_ℤ left epsilon ≡ false
      → beyond offer.price ≡ false
      → leb_ℤ (offer.quantity -ℤ min_ℤ left offer.quantity) epsilon ≡ true
      → let after = take_offers beyond (left -ℤ min_ℤ left offer.quantity) others in
        take_offers beyond left (offer ∷ others) ≡ record after {
          fills = record offer { quantity = min_ℤ left offer.quantity } ∷ after.fills;
        }
  unfolding take_offers
  take-gone offer others h k g = rw (h, k) (rw g)

  pub take-kept :
      (offer : Offer) (others : List Offer)
      → leb_ℤ left epsilon ≡ false
      → beyond offer.price ≡ false
      → leb_ℤ (offer.quantity -ℤ min_ℤ left offer.quantity) epsilon ≡ false
      → take_offers beyond left (offer ∷ others) ≡ record {
        fills = record offer { quantity = min_ℤ left offer.quantity } ∷ [];
        left = left -ℤ min_ℤ left offer.quantity;
        rest = record offer { quantity = offer.quantity -ℤ min_ℤ left offer.quantity } ∷ others;
      }
  unfolding take_offers
  take-kept offer others h k g = rw (h, k) (rw g)

-- An offer of which more than the tolerance is left has filled the whole order.
pub kept_done :
    (left quantity : ℤ)
    → leb_ℤ (quantity -ℤ min_ℤ left quantity) epsilon ≡ false
    → ltb_ℤ epsilon (left -ℤ min_ℤ left quantity) ≡ false
kept_done left quantity h = elim (Bool-cases (ltb_ℤ quantity left)) [
  | inl all ↦
      absurd (omega (int_laws, epsilon-pos, leb_ℤ→<ℤ (quantity -ℤ quantity) epsilon (rw all at h)))
  | inr part ↦ rw part (≤ℤ→ltb_ℤ epsilon (left -ℤ left) (omega (int_laws, epsilon-pos)))
]
