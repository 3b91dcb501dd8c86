-- ===== src/Matching/TakeLaws.antt =====
-- Laws of `take_offers`: quantities are conserved, prices respect the limit, offers are taken in
-- order, and it goes on while it can.
use collections.Prelude.{
  Bool, true, false, List, [], ◌∷◌, ◌++◌, ◌≡◌, refl, All, arith, if◌then◌else◌, sym, subst, ap, ◌∙◌,
  ◌⊎◌, inl, inr, Bool-cases, map,
}
use collections.Prelude.Int.{
  ℤ, pos, pos_part, neg_part, ◌+ℤ◌, ◌-ℤ◌, ◌≤ℤ◌, ◌<ℤ◌, ltb_ℤ, leb_ℤ, int_laws, leb_ℤ→≤ℤ, leb_ℤ→<ℤ,
  ≤ℤ→leb_ℤ, <ℤ→ltb_ℤ,
}
use collections.Prelude.Double.{epsilon, epsilon-pos}
use collections.Matching.Match.{min_ℤ}
use collections.Matching.Offers.{Offer, Outcome, take_offers, total}
use collections.Matching.Take.{
  take-nil, take-done, take-beyond, take-gone, take-kept, kept_done, leb_of_not_ltb,
}
use Prim.Native.String.{String}

pub min_le_left : (a b : ℤ) → min_ℤ a b ≤ℤ a
min_le_left a b = ground arith

pub min_le_right : (a b : ℤ) → min_ℤ a b ≤ℤ b
min_le_right a b = ground arith

pub min_cases : (a b : ℤ) → (min_ℤ a b ≡ a) ⊎ (min_ℤ a b ≡ b)
min_cases a b = elim (Bool-cases (ltb_ℤ b a)) [ inl h ↦ inr (rw h) | inr h ↦ inl (rw h) ]

abbrev pub ticket : Offer → String × ℤ
ticket offer = (offer.reference, offer.price)

pub min_positive : (a b : ℤ) → leb_ℤ a epsilon ≡ false → epsilon <ℤ b → pos 0 <ℤ min_ℤ a b
min_positive a b h k = elim (min_cases a b) [
  | inl e ↦ rw e (omega (arith, epsilon-pos, leb_ℤ→<ℤ a epsilon h))
  | inr e ↦ rw e (omega (arith, epsilon-pos))
]

-- Why nothing is taken: the order is filled, or there is no offer within the limit.
abbrev pub Stopped : (ℤ → Bool) → ℤ → List Offer → Type 0
Stopped beyond left [] = Unit
Stopped beyond left (offer ∷ others) = (leb_ℤ left epsilon ≡ true) ⊎ (beyond offer.price ≡ true)

module _ {κ} (beyond : ℤ → Bool) (P : ℤ → List Offer → Outcome → Type κ) where
  -- Induction on the rounds.
  pub take_induction :
      ((left : ℤ) (given : List Offer)
        → Stopped beyond left given
        → P left given (record { fills = []; left = left; rest = given }))
      → ((left : ℤ) (offer : Offer) (others : List Offer) (after : Outcome)
          → leb_ℤ left epsilon ≡ false
          → beyond offer.price ≡ false
          → P (left -ℤ min_ℤ left offer.quantity) others after
          → P left (offer ∷ others) (record after {
            fills = record offer { quantity = min_ℤ left offer.quantity } ∷ after.fills;
          }))
      → ((left : ℤ) (offer : Offer) (others : List Offer)
          → leb_ℤ left epsilon ≡ false
          → beyond offer.price ≡ false
          → leb_ℤ (offer.quantity -ℤ min_ℤ left offer.quantity) epsilon ≡ false
          → P left (offer ∷ others) (record {
            fills = record offer { quantity = min_ℤ left offer.quantity } ∷ [];
            left = left -ℤ min_ℤ left offer.quantity;
            rest = record offer { quantity = offer.quantity -ℤ min_ℤ left offer.quantity } ∷ others;
          }))
      → (left : ℤ) (given : List Offer) → P left given (take_offers beyond left given)
  take_induction stop gone kept left [] = subst (P left []) (sym empty) (stop left [] tt)
    where
      empty : take_offers beyond left [] ≡ record { fills = []; left = left; rest = [] }
      empty = take-nil beyond left
  take_induction stop gone kept left (offer ∷ others) = elim (Bool-cases (leb_ℤ left epsilon)) [
    | inl done ↦
        subst (P left (offer ∷ others)) (sym (take-done beyond left (offer ∷ others) done))
          (stop left (offer ∷ others) (inl done))
    | inr more ↦ elim (Bool-cases (beyond offer.price)) [
      | inl far ↦
          subst (P left (offer ∷ others)) (sym (take-beyond beyond left offer others more far))
            (stop left (offer ∷ others) (inr far))
      | inr near ↦ elim (Bool-cases (leb_ℤ (offer.quantity -ℤ min_ℤ left offer.quantity) epsilon)) [
        | inl small ↦
            subst (P left (offer ∷ others))
              (sym (take-gone beyond left offer others more near small))
              (gone left offer others _ more near
                (take_induction stop gone kept (left -ℤ min_ℤ left offer.quantity) others))
        | inr large ↦
            subst (P left (offer ∷ others))
              (sym (take-kept beyond left offer others more near large))
              (kept left offer others more near large)
      ]
    ]
  ]

regroup : (m t l left : ℤ) → t +ℤ l ≡ left -ℤ m → m +ℤ t +ℤ l ≡ left
regroup m t l left h = omega (int_laws, ap pos_part h, ap neg_part h)

small_less : (a q : ℤ) → leb_ℤ a epsilon ≡ true → epsilon <ℤ q → leb_ℤ (a -ℤ q) epsilon ≡ true
small_less a q h k = ≤ℤ→leb_ℤ (a -ℤ q) epsilon (omega (int_laws, epsilon-pos, leb_ℤ→≤ℤ a epsilon h))

enough_min : (a q : ℤ) → leb_ℤ (a -ℤ q) epsilon ≡ true → leb_ℤ (a -ℤ min_ℤ a q) epsilon ≡ true
enough_min a q h = elim (min_cases a q) [
  | inl e ↦ rw e (≤ℤ→leb_ℤ (a -ℤ a) epsilon (omega (int_laws, epsilon-pos)))
  | inr e ↦ rw e h
]

more_min : (a q : ℤ) → leb_ℤ (a -ℤ q) epsilon ≡ false → min_ℤ a q ≡ q
more_min a q h = rw (<ℤ→ltb_ℤ q a (omega (int_laws, epsilon-pos, leb_ℤ→<ℤ (a -ℤ q) epsilon h)))

module _ (beyond : ℤ → Bool) where
  -- What is left is not negative.
  pub take_nonneg :
      (left : ℤ) (given : List Offer)
      → pos 0 ≤ℤ left
      → pos 0 ≤ℤ (take_offers beyond left given).left
  take_nonneg =
      take_induction beyond (λ left given out. pos 0 ≤ℤ left → pos 0 ≤ℤ out.left)
        (λ left given st h. h)
        (λ left offer others after more near ih h.
          ih (omega (int_laws, min_le_left left offer.quantity)))
        (λ left offer others more near large h. omega (int_laws, min_le_left left offer.quantity))

  -- What is taken and what is left make up the order.
  pub take_total :
      (left : ℤ) (given : List Offer)
      → let out = take_offers beyond left given in total out.fills +ℤ out.left ≡ left
  take_total =
      take_induction beyond (λ left given out. total out.fills +ℤ out.left ≡ left)
        (λ left given st. omega int_laws)
        (λ left offer others after more near ih.
          regroup (min_ℤ left offer.quantity) (total after.fills) after.left left ih)
        (λ left offer others more near large.
          regroup (min_ℤ left offer.quantity) (pos 0) (left -ℤ min_ℤ left offer.quantity) left
            (omega int_laws))

  -- No fill is beyond the limit.
  pub take_prices :
      (left : ℤ) (given : List Offer)
      → All (λ (fill : Offer). beyond fill.price ≡ false) (take_offers beyond left given).fills
  take_prices =
      take_induction beyond
        (λ left given out. All (λ (fill : Offer). beyond fill.price ≡ false) out.fills)
        (λ left given st. tt) (λ left offer others after more near ih. (near, ih))
        (λ left offer others more near large. (near, tt))

  -- It stops only when the order is filled or no offer is within the limit.
  pub take-Stopped :
      (left : ℤ) (given : List Offer)
      → let out = take_offers beyond left given in Stopped beyond out.left out.rest
  take-Stopped =
      take_induction beyond (λ left given out. Stopped beyond out.left out.rest)
        (λ left given st. st) (λ left offer others after more near ih. ih)
        (λ left offer others more near large. inl (
          leb_of_not_ltb epsilon (left -ℤ min_ℤ left offer.quantity)
            (kept_done left offer.quantity large)))

  -- The fills are the first offers, in their order.
  pub take_priority :
      (left : ℤ) (given : List Offer)
      → (later : List (String × ℤ)) × (map ticket given
          ≡ map ticket (take_offers beyond left given).fills ++ later)
  take_priority =
      take_induction beyond
        (λ left given out.
          (later : List (String × ℤ)) × (map ticket given ≡ map ticket out.fills ++ later))
        (λ left given st. (map ticket given, refl))
        (λ left offer others after more near ih. (ih.0, ap (λ ts. ticket offer ∷ ts) ih.1))
        (λ left offer others more near large. (map ticket others, refl))

  -- Every fill takes something, and no more than was offered.
  pub take_positive :
      (left : ℤ) (given : List Offer)
      → All (λ (offer : Offer). epsilon <ℤ offer.quantity) given
      → All (λ (fill : Offer). pos 0 <ℤ fill.quantity) (take_offers beyond left given).fills
  take_positive =
      take_induction beyond
        (λ left given out.
          All (λ (offer : Offer). epsilon <ℤ offer.quantity) given
          → All (λ (fill : Offer). pos 0 <ℤ fill.quantity) out.fills)
        (λ left given st h. tt)
        (λ left offer others after more near ih h.
          (min_positive left offer.quantity more h.0, ih h.1))
        (λ left offer others more near large h. (min_positive left offer.quantity more h.0, tt))

  -- The test of a fill-or-kill order, on the offers.
  unfoldable pub scan_offers : ℤ → List Offer → Bool
  scan_offers left [] = leb_ℤ left epsilon
  scan_offers left (offer ∷ others) =
      if beyond offer.price
      then leb_ℤ left epsilon
      else if leb_ℤ (left -ℤ offer.quantity) epsilon
      then true
      else scan_offers (left -ℤ offer.quantity) others

  scan_small :
      (left : ℤ) (given : List Offer)
      → leb_ℤ left epsilon ≡ true
      → All (λ (offer : Offer). epsilon <ℤ offer.quantity) given
      → scan_offers left given ≡ true
  unfolding scan_offers
  scan_small left [] small h = small
  scan_small left (offer ∷ others) small h = rw small (elim (Bool-cases (beyond offer.price)) [
    | inl far ↦ rw far
    | inr near ↦ rw near (rw (small_less left offer.quantity small h.0))
  ])

  scan_round :
      (left : ℤ) (offer : Offer) (others : List Offer)
      → beyond offer.price ≡ false
      → epsilon <ℤ offer.quantity
      → All (λ (o : Offer). epsilon <ℤ o.quantity) others
      → scan_offers left (offer ∷ others) ≡ scan_offers (left -ℤ min_ℤ left offer.quantity) others
  unfolding scan_offers
  scan_round left offer others near large h =
      rw near (elim (Bool-cases (leb_ℤ (left -ℤ offer.quantity) epsilon)) [
        | inl enough ↦ rw enough (
            sym (
              scan_small (left -ℤ min_ℤ left offer.quantity) others
                (enough_min left offer.quantity enough) h))
        | inr more ↦ rw more (rw (more_min left offer.quantity more) refl)
      ])

  scan_stop :
      (left : ℤ) (given : List Offer)
      → Stopped beyond left given
      → All (λ (offer : Offer). epsilon <ℤ offer.quantity) given
      → scan_offers left given ≡ leb_ℤ left epsilon
  unfolding scan_offers
  scan_stop left [] st h = refl
  scan_stop left (offer ∷ others) (inl done) h = scan_small left (offer ∷ others) done h ∙ sym done
  scan_stop left (offer ∷ others) (inr far) h = rw far refl

  -- The test says whether the order will be filled, exactly.
  pub scan_offers-exact :
      (left : ℤ) (given : List Offer)
      → All (λ (offer : Offer). epsilon <ℤ offer.quantity) given
      → scan_offers left given ≡ leb_ℤ (take_offers beyond left given).left epsilon
  scan_offers-exact =
      take_induction beyond
        (λ left given out.
          All (λ (offer : Offer). epsilon <ℤ offer.quantity) given
          → scan_offers left given ≡ leb_ℤ out.left epsilon)
        scan_stop
        (λ left offer others after more near ih h.
          scan_round left offer others near h.0 h.1 ∙ ih h.1)
        (λ left offer others more near large h.
          let done =
            leb_of_not_ltb epsilon (left -ℤ min_ℤ left offer.quantity)
              (kept_done left offer.quantity large) in
          scan_round left offer others near h.0 h.1 ∙ scan_small _ others done h.1 ∙ sym done)
