-- ===== src/Matching/Rest.antt =====
-- An order that comes to rest keeps the books well formed.
use collections.Prelude.{
  true, false, none, List, [], ◌∷◌, ◌++◌, ◌≡◌, ◌≢◌, refl, All, string_eq, arith, ◌==◌, subst, ◌∙◌,
  Bool-cases, inl, inr, eq→≡, eq_self, All-append,
}
use collections.Prelude.Int.{ℤ, eq_of_parts}
use collections.Prelude.Dict.{lookup, emplace, lookup-emplace}
use collections.Prelude.OrderedMap.{find, assign}
use collections.Matching.Types.{Side, buy, sell, RestingOrder, Levels, LiveOrders}
use collections.Matching.Book.{before, is_nil, push_back}
use collections.Matching.Wellformed.{
  Owned, Distinct, NotIn, Apart, Agrees, LevelsOk, LevelsOk-agree, All-Owned-agree,
}
use Prim.Native.String.{String}

module _ (side : Side) where
  before_trans :
      (a b c : ℤ) → before side a b ≡ true → before side b c ≡ true → before side a c ≡ true
  before_trans a b c h k = by_side side a b c h k
    where
      by_side :
          (s : Side) (a b c : ℤ) → before s a b ≡ true → before s b c ≡ true → before s a c ≡ true
      by_side buy a b c h k = ground arith
      by_side sell a b c h k = ground arith

  before_asym : (a b : ℤ) → before side a b ≡ true → before side b a ≡ false
  before_asym a b h = by_side side a b h
    where
      by_side : (s : Side) (a b : ℤ) → before s a b ≡ true → before s b a ≡ false
      by_side buy a b h = ground arith
      by_side sell a b h = ground arith

  before_eq : (a b : ℤ) → before side a b ≡ false → before side b a ≡ false → a ≡ b
  before_eq a b h k = by_side side a b h k
    where
      by_side : (s : Side) (a b : ℤ) → before s a b ≡ false → before s b a ≡ false → a ≡ b
      by_side buy a b h k = ground (arith, eq_of_parts a b)
      by_side sell a b h k = ground (arith, eq_of_parts a b)

  All-before :
      (a b : ℤ) (levels : Levels)
      → before side a b ≡ true
      → All (λ level. before side b level.0 ≡ true) levels
      → All (λ level. before side a level.0 ≡ true) levels
  All-before a b [] h k = tt
  All-before a b ((price, queue) ∷ levels) h k =
      (before_trans a b price h k.0, All-before a b levels h k.1)

-- Where an order goes: a new level in front, a level further on, or the back of the first queue.
module _ (side : Side) (price : ℤ) (id : String) where
  push_back-front :
      (at : ℤ) (queue : List String) (levels : Levels)
      → before side price at ≡ true
      → push_back side price id ((at, queue) ∷ levels) ≡ (price, id ∷ []) ∷ (at, queue) ∷ levels
  unfolding push_back find assign
  push_back-front at queue levels h = ground (arith, before_asym side price at h)

  push_back-later :
      (at : ℤ) (queue : List String) (levels : Levels)
      → before side at price ≡ true
      → push_back side price id ((at, queue) ∷ levels)
        ≡ (at, queue) ∷ push_back side price id levels
  unfolding push_back find assign
  push_back-later at queue levels h = ground (arith, before_asym side at price h)

  push_back-here :
      (at : ℤ) (queue : List String) (levels : Levels)
      → before side price at ≡ false
      → before side at price ≡ false
      → push_back side price id ((at, queue) ∷ levels) ≡ (at, queue ++ id ∷ []) ∷ levels
  unfolding push_back find assign
  push_back-here at queue levels h k = ground arith

  push_back-empty : push_back side price id [] ≡ (price, id ∷ []) ∷ []
  unfolding push_back find assign
  push_back-empty = refl

  -- Prices that come later than `a` still do.
  push_back-before :
      (a : ℤ) (levels : Levels)
      → before side a price ≡ true
      → All (λ level. before side a level.0 ≡ true) levels
      → All (λ level. before side a level.0 ≡ true) (push_back side price id levels)
  push_back-before a [] h k = rw push_back-empty (h, tt)
  push_back-before a ((at, queue) ∷ levels) h k = elim (Bool-cases (before side price at)) [
    | inl front ↦ rw (push_back-front at queue levels front) (h, k)
    | inr not_front ↦ elim (Bool-cases (before side at price)) [
      | inl later ↦
          rw (push_back-later at queue levels later) (k.0, push_back-before a levels h k.1)
      | inr not_later ↦ rw (push_back-here at queue levels not_front not_later) k
    ]
  ]

Distinct-snoc :
    (id : String) (queue : List String)
    → Distinct queue
    → NotIn id queue
    → Distinct (queue ++ id ∷ [])
Distinct-snoc id [] d n = (tt, tt)
Distinct-snoc id (x ∷ queue) d n = (all_ne queue d.0, Distinct-snoc id queue d.1 n.1)
  where
    all_ne : (q : List String) → All (λ y. x ≢ y) q → All (λ y. x ≢ y) (q ++ id ∷ [])
    all_ne [] h = ((λ e. cc (n.0, e, eq_self id)), tt)
    all_ne (y ∷ q) h = (h.0, all_ne q h.1)

not_nil_snoc : (queue : List String) (id : String) → is_nil (queue ++ id ∷ []) ≡ false
not_nil_snoc [] id = refl
not_nil_snoc (x ∷ queue) id = refl

-- A reference that is not live stands in no level.
module _ (live : LiveOrders) (id : String) (fresh : lookup id live ≡ none) where
  NotIn-fresh :
      (side : Side) (price : ℤ) (queue : List String)
      → All (Owned live side price) queue
      → NotIn id queue
  NotIn-fresh side price [] h = tt
  NotIn-fresh side price (x ∷ queue) h = (
    elim (Bool-cases (id == x)) [ inl e ↦ cc (fresh, h.0.at, eq→≡ id x e) | inr e ↦ e ],
    NotIn-fresh side price queue h.1,
  )

  pub Apart-fresh : (side : Side) (levels : Levels) → LevelsOk live side levels → Apart id levels
  Apart-fresh side [] h = tt
  Apart-fresh side ((price, queue) ∷ levels) h =
      (NotIn-fresh side price queue h.0.owned, Apart-fresh side levels h.1)

  -- The level of the new order, and those around it.
  module _ (live' : LiveOrders) (agree : Agrees id live live') (side : Side) (price : ℤ)
      (w : Owned live' side price id) where
    old_owned :
        (at : ℤ) (queue : List String)
        → All (Owned live side at) queue
        → All (Owned live' side at) queue
    old_owned at queue h =
        All-Owned-agree id live live' agree side at queue (NotIn-fresh side at queue h) h

    pub push_back-ok :
        (levels : Levels)
        → LevelsOk live side levels
        → LevelsOk live' side (push_back side price id levels)
    push_back-ok [] h =
        rw (push_back-empty side price id)
          (record { occupied = refl; owned = (w, tt); distinct = (tt, tt); ordered = tt }, tt)
    push_back-ok ((at, queue) ∷ levels) h = elim (Bool-cases (before side price at)) [
      | inl front ↦ rw (push_back-front side price id at queue levels front) (
        record {
          occupied = refl;
          owned = (w, tt);
          distinct = (tt, tt);
          ordered = (front, All-before side price at levels front h.0.ordered);
        },
        LevelsOk-agree id live live' agree side ((at, queue) ∷ levels)
            (Apart-fresh side ((at, queue) ∷ levels) h) h,
      )
      | inr not_front ↦ elim (Bool-cases (before side at price)) [
        | inl later ↦ rw (push_back-later side price id at queue levels later) (
          record {
            occupied = h.0.occupied;
            owned = old_owned at queue h.0.owned;
            distinct = h.0.distinct;
            ordered = push_back-before side price id at levels later h.0.ordered;
          },
          push_back-ok levels h.1,
        )
        | inr not_later ↦ rw (push_back-here side price id at queue levels not_front not_later) (
          record {
            occupied = not_nil_snoc queue id;
            owned =
                All-append (Owned live' side at) queue (id ∷ []) (old_owned at queue h.0.owned) (
                  subst (λ p. Owned live' side p id) (before_eq side price at not_front not_later)
                      w,
                  tt,
                );
            distinct = Distinct-snoc id queue h.0.distinct (NotIn-fresh side at queue h.0.owned);
            ordered = h.0.ordered;
          },
          LevelsOk-agree id live live' agree side levels (Apart-fresh side levels h.1) h.1,
        )
      ]
    ]

pub emplace-Agrees :
    (k : String) (v : RestingOrder) (live : LiveOrders)
    → lookup k live ≡ none
    → Agrees k live (emplace k v live)
emplace-Agrees k v live h x ne = lookup-emplace k x v live h ∙ rw ne
