-- ===== src/Matching/Wellformed.antt =====
-- What the books and the live orders of the matching engine keep: every reference in a level names
-- a live order of that side and price with more than the tolerance left, no level is empty, no
-- order stands in a level twice, and the levels are in strict price order.
use collections.Prelude.{
  true, false, some, List, [], ◌∷◌, ◌≡◌, ◌≢◌, All, string_eq, arith, ◌⊎◌, inl, inr, eq→≡,
  Bool-cases, ◌==◌, sym, ◌∙◌, ap,
}
use collections.Prelude.Int.{ℤ, ◌<ℤ◌}
use collections.Prelude.Double.{epsilon}
use collections.Prelude.Dict.{lookup, insert, erase, lookup-insert, lookup-erase}
use collections.Matching.Types.{Side, buy, sell, RestingOrder, Levels, LiveOrders, Engine}
use collections.Matching.Book.{before, is_nil}
use collections.Matching.Match.{opposite}
use Prim.Native.String.{String}

pub record Owned (live : LiveOrders) (side : Side) (price : ℤ) (reference : String) : Type 0 where
  pub order : RestingOrder
  pub at : lookup reference live ≡ some order
  pub named : order.order_id ≡ reference
  pub sided : order.side ≡ side
  pub priced : order.price ≡ price
  pub large : epsilon <ℤ order.open_quantity

abbrev pub Distinct : List String → Type 0
Distinct [] = Unit
Distinct (x ∷ queue) = All (λ y. x ≢ y) queue × Distinct queue

pub record LevelOk (live : LiveOrders) (side : Side) (price : ℤ) (queue : List String)
    (others : Levels) : Type 0 where
  pub occupied : is_nil queue ≡ false
  pub owned : All (Owned live side price) queue
  pub distinct : Distinct queue
  pub ordered : All (λ level. before side price level.0 ≡ true) others

abbrev pub LevelsOk : LiveOrders → Side → Levels → Type 0
LevelsOk live side [] = Unit
LevelsOk live side ((price, queue) ∷ others) =
    LevelOk live side price queue others × LevelsOk live side others

pub record IsWellformed (e : Engine) : Type 0 where
  pub bids_ok : LevelsOk e.live_orders buy e.bids
  pub asks_ok : LevelsOk e.live_orders sell e.asks

-- References of two sides, or of two prices, are different.
pub sides_ne :
    (live : LiveOrders) (s t : Side) (p q : ℤ) (k r : String)
    → (s ≢ t) ⊎ (p ≢ q)
    → Owned live s p k
    → Owned live t q r
    → (k == r) ≡ false
sides_ne live s t p q k r apart v w = elim (Bool-cases (k == r)) [
  | inr e ↦ e
  | inl e ↦
      let same : v.order ≡ w.order = cc (v.at, w.at, eq→≡ k r e) in
      absurd (
        apart_absurd s t p q (sym v.sided ∙ ap (λ (o : RestingOrder). o.side) same ∙ w.sided)
          (sym v.priced ∙ ap (λ (o : RestingOrder). o.price) same ∙ w.priced) apart)
]
  where
    apart_absurd : (s t : Side) (p q : ℤ) → s ≡ t → p ≡ q → (s ≢ t) ⊎ (p ≢ q) → ⊥
    apart_absurd s t p q e f (inl h) = h e
    apart_absurd s t p q e f (inr h) = h f

pub before_ne : (side : Side) (p q : ℤ) → before side p q ≡ true → p ≢ q
before_ne buy p q h e = ground arith
before_ne sell p q h e = ground arith

pub opposite_ne : (side : Side) → side ≢ opposite side
opposite_ne buy e = cc
opposite_ne sell e = cc

-- The live orders before and after a change to the entry of one reference.
abbrev pub Agrees : String → LiveOrders → LiveOrders → Type 0
Agrees k live live' = (x : String) → (k == x) ≡ false → lookup x live' ≡ lookup x live

-- The reference stands in no level.
abbrev pub NotIn : String → List String → Type 0
NotIn k queue = All (λ x. (k == x) ≡ false) queue

abbrev pub Apart : String → Levels → Type 0
Apart k levels = All (λ level. NotIn k level.1) levels

pub insert-Agrees :
    (k : String) (v : RestingOrder) (live : LiveOrders) → Agrees k live (insert k v live)
insert-Agrees k v live x ne = rw (lookup-insert k x v live, ne)

pub erase-Agrees : (k : String) (live : LiveOrders) → Agrees k live (erase k live)
erase-Agrees k live x ne = rw (lookup-erase k x live, ne)

pub Agrees-trans : (k : String) (a b c : LiveOrders) → Agrees k a b → Agrees k b c → Agrees k a c
Agrees-trans k a b c f g x ne = g x ne ∙ f x ne

module _ (k : String) (live live' : LiveOrders) (agree : Agrees k live live') where
  pub Owned-agree :
      (side : Side) (price : ℤ) (x : String)
      → (k == x) ≡ false
      → Owned live side price x
      → Owned live' side price x
  Owned-agree side price x ne w = record {
    order = w.order;
    at = agree x ne ∙ w.at;
    named = w.named;
    sided = w.sided;
    priced = w.priced;
    large = w.large;
  }

  pub All-Owned-agree :
      (side : Side) (price : ℤ) (queue : List String)
      → NotIn k queue
      → All (Owned live side price) queue
      → All (Owned live' side price) queue
  All-Owned-agree side price [] apart h = tt
  All-Owned-agree side price (x ∷ queue) apart h =
      (Owned-agree side price x apart.0 h.0, All-Owned-agree side price queue apart.1 h.1)

  pub LevelsOk-agree :
      (side : Side) (levels : Levels)
      → Apart k levels
      → LevelsOk live side levels
      → LevelsOk live' side levels
  LevelsOk-agree side [] apart h = tt
  LevelsOk-agree side ((price, queue) ∷ levels) apart h = (
    record {
      occupied = h.0.occupied;
      owned = All-Owned-agree side price queue apart.0 h.0.owned;
      distinct = h.0.distinct;
      ordered = h.0.ordered;
    },
    LevelsOk-agree side levels apart.1 h.1,
  )

-- A live reference stands in no level of another side, nor in one of another price.
module _ (live : LiveOrders) (s : Side) (p : ℤ) (k : String) (w : Owned live s p k) where
  NotIn-owned :
      (t : Side) (q : ℤ) (queue : List String)
      → (s ≢ t) ⊎ (p ≢ q)
      → All (Owned live t q) queue
      → NotIn k queue
  NotIn-owned t q [] apart h = tt
  NotIn-owned t q (x ∷ queue) apart h =
      (sides_ne live s t p q k x apart w h.0, NotIn-owned t q queue apart h.1)

  pub Apart-opposite : (levels : Levels) → LevelsOk live (opposite s) levels → Apart k levels
  Apart-opposite [] h = tt
  Apart-opposite ((q, queue) ∷ levels) h =
      (NotIn-owned (opposite s) q queue (inl (opposite_ne s)) h.0.owned, Apart-opposite levels h.1)

  pub Apart-later :
      (levels : Levels)
      → All (λ level. before s p level.0 ≡ true) levels
      → LevelsOk live s levels
      → Apart k levels
  Apart-later [] later h = tt
  Apart-later ((q, queue) ∷ levels) later h = (
    NotIn-owned s q queue (inr (before_ne s p q later.0)) h.0.owned,
    Apart-later levels later.1 h.1,
  )

pub NotIn-distinct : (k : String) (queue : List String) → All (λ y. k ≢ y) queue → NotIn k queue
NotIn-distinct k [] h = tt
NotIn-distinct k (x ∷ queue) h = (
  elim (Bool-cases (k == x)) [ inl e ↦ absurd (h.0 (eq→≡ k x e)) | inr e ↦ e ],
  NotIn-distinct k queue h.1,
)
