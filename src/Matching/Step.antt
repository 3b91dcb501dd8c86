-- ===== src/Matching/Step.antt =====
-- One round of a matching loop: the front of the best level is filled, and stays with what is left
-- of it or leaves the book.
use collections.Prelude.{
  true, false, some, List, [], ◌∷◌, ◌++◌, ◌≡◌, refl, All, string_eq, subst, sym, ap, ◌∙◌,
}
use collections.Prelude.Int.{ℤ, pos, ◌-ℤ◌, leb_ℤ, leb_ℤ→<ℤ}
use collections.Prelude.Double.{epsilon}
use collections.Prelude.Dict.{lookup, insert, erase, lookup-insert_self}
use collections.Prelude.OrderedMap.{find}
use collections.Matching.Types.{
  Side, buy, sell, OrderRequest, Trade, RestingOrder, Levels, LiveOrders, Engine, filled,
  partially_filled, no_reason,
}
use collections.Matching.Events.{emit_depth_event, emit_order_event, emit_trade_event}
use collections.Matching.Book.{levels_of, before, remove_first, update_depth}
use collections.Matching.Match.{
  opposite, min_ℤ, Progress, trade_with, fill_front, fill_maker, settle_maker,
}
use collections.Matching.Wellformed.{Owned, LevelOk, insert-Agrees, All-Owned-agree, NotIn-distinct}
use collections.Matching.Removal.{Removed, remove_resting_order_lem, aggregate_total, cut_level}
use collections.Matching.OfferLaws.{tail_levels, find-head, cut_level-head, remove_first-head}
use Prim.Native.String.{String}

-- Events, the depth book and changes of the live orders leave the books alone.
levels_of-traded :
    (side : Side) (trade : Trade) (live : LiveOrders) (e : Engine)
    → levels_of side (emit_trade_event trade (record e { live_orders = live })) ≡ levels_of side e
unfolding emit_trade_event
levels_of-traded buy trade live e = refl
levels_of-traded sell trade live e = refl

-- What a round leaves behind, by whether the maker is gone.
pub record Filled (side : Side) (reference : String) (levels : Levels) (live : LiveOrders)
    (fill : ℤ) (trade : Trade) (s s' : Progress) : Type 0 where
  pub remaining_eq : s'.remaining ≡ s.remaining -ℤ fill
  pub trades_eq : s'.trades ≡ s.trades ++ trade ∷ []
  pub levels_eq : levels_of side s'.engine ≡ levels
  pub opposite_eq : levels_of (opposite side) s'.engine ≡ levels_of (opposite side) s.engine
  pub live_eq : s'.engine.live_orders ≡ live

levels_of-order_event :
    (side : Side) (maker : RestingOrder) (e : Engine)
    → levels_of side (emit_order_event maker.order_id filled no_reason (pos 0) e) ≡ levels_of side e
unfolding emit_order_event
levels_of-order_event buy maker e = refl
levels_of-order_event sell maker e = refl

module _ (side : Side) (price : ℤ) (reference : String) (queue : List String)
    (others : Levels) where
  -- A maker with no more than the tolerance left leaves the book and the live orders.
  settle_gone :
      (maker : RestingOrder) (e : Engine)
      → lookup reference e.live_orders ≡ some maker
      → maker.order_id ≡ reference
      → maker.side ≡ side
      → maker.price ≡ price
      → levels_of side e ≡ (price, reference ∷ queue) ∷ others
      → All (Owned e.live_orders side price) queue
      → leb_ℤ maker.open_quantity epsilon ≡ true
      → (e' : Engine) × (settle_maker side (reference ∷ queue) reference maker e ≡ some e')
        × Removed side (tail_levels price queue others) (erase reference e.live_orders) e e'
  unfolding settle_maker emit_order_event
  settle_gone maker e at named sided priced levels owned small =
      let e₁ = emit_order_event maker.order_id filled no_reason (pos 0) e in
      let same = levels_of-order_event side maker e in
      let front : remove_first maker.order_id (reference ∷ queue) ≡ queue =
        subst (λ x. remove_first x (reference ∷ queue) ≡ queue) (sym named)
          (remove_first-head reference queue) in
      let best : find (before side) maker.price (levels_of side e₁) ≡ some (reference ∷ queue) =
        subst (λ x. find (before side) x (levels_of side e₁) ≡ some (reference ∷ queue))
          (sym priced) (rw (same ∙ levels) (find-head side price (reference ∷ queue) others)) in
      let rest : All (Owned e.live_orders side maker.price)
          (remove_first maker.order_id (reference ∷ queue)) =
        subst (λ x. All (Owned e.live_orders side maker.price) x) (sym front)
          (subst (λ x. All (Owned e.live_orders side x) queue) (sym priced) owned) in
      let (e', run, r) =
        remove_resting_order_lem reference maker (reference ∷ queue) e₁ side at sided best rest in
      (
        e',
        rw small run,
        record {
          levels_eq =
              r.levels_eq
              ∙ ap (λ x. cut_level side maker.price x (levels_of side e₁)) front
              ∙ ap (λ x. cut_level side x queue (levels_of side e₁)) priced
              ∙ ap (λ l. cut_level side price queue l) (same ∙ levels)
              ∙ cut_level-head side price queue (reference ∷ queue) others;
          opposite_eq = r.opposite_eq ∙ levels_of-order_event (opposite side) maker e;
          live_eq = r.live_eq ∙ ap (λ x. erase x e.live_orders) named;
        },
      )

-- The event and the depth of a maker that stays.
abbrev kept : Side → RestingOrder → ℤ → Engine → Engine
kept side maker sum e = emit_depth_event (
    emit_order_event maker.order_id partially_filled no_reason maker.open_quantity
      (update_depth side maker.price sum e))

levels_of-kept :
    (s side : Side) (maker : RestingOrder) (sum : ℤ) (e : Engine)
    → levels_of s (kept side maker sum e) ≡ levels_of s e
unfolding emit_order_event emit_depth_event update_depth
levels_of-kept buy side maker sum e = refl
levels_of-kept sell side maker sum e = refl

-- A maker with more than the tolerance left stays where it is.
settle_kept :
    (side : Side) (price : ℤ) (reference : String) (queue : List String) (maker : RestingOrder)
    (e : Engine)
    → All (Owned e.live_orders side price) (reference ∷ queue)
    → leb_ℤ maker.open_quantity epsilon ≡ false
    → (e' : Engine) × (settle_maker side (reference ∷ queue) reference maker e ≡ some e')
      × Removed side (levels_of side e) e.live_orders e e'
unfolding settle_maker emit_order_event emit_depth_event update_depth
settle_kept side price reference queue maker e owned large =
    let (sum, a) = aggregate_total e.live_orders side price (pos 0) (reference ∷ queue) owned in
    (
      kept side maker sum e,
      rw large (rw a refl),
      record {
        levels_eq = levels_of-kept side side maker sum e;
        opposite_eq = levels_of-kept (opposite side) side maker sum e;
        live_eq = refl;
      },
    )

-- A round of the loop at a well-formed best level.
module _ (side : Side) (request : OrderRequest) (s : Progress) (price : ℤ) (reference : String)
    (queue : List String) (others : Levels)
    (levels : levels_of side s.engine ≡ (price, reference ∷ queue) ∷ others)
    (ok : LevelOk s.engine.live_orders side price (reference ∷ queue) others) where
  abbrev maker : RestingOrder
  maker = ok.owned.0.order

  abbrev pub fill_of : ℤ
  fill_of = min_ℤ s.remaining maker.open_quantity

  abbrev pub left_of : RestingOrder
  left_of = record maker { open_quantity = maker.open_quantity -ℤ fill_of }

  abbrev pub live_of : LiveOrders
  live_of = insert reference left_of s.engine.live_orders

  abbrev traded : Engine
  traded =
      emit_trade_event (trade_with request maker fill_of)
        (record s.engine { live_orders = live_of })

  front_run :
      (e' : Engine)
      → settle_maker side (reference ∷ queue) reference left_of traded ≡ some e'
      → fill_front side request (reference ∷ queue) s
        ≡ some (record s {
          engine = e';
          remaining = s.remaining -ℤ fill_of;
          trades = s.trades ++ trade_with request maker fill_of ∷ [];
        })
  unfolding fill_front fill_maker
  front_run e' run = rw ok.owned.0.at (rw run refl)

  queue_live : All (Owned live_of side price) queue
  queue_live =
      All-Owned-agree reference s.engine.live_orders live_of
        (insert-Agrees reference left_of s.engine.live_orders) side price queue
        (NotIn-distinct reference queue ok.distinct.0) ok.owned.1

  pub round_gone :
      leb_ℤ left_of.open_quantity epsilon ≡ true
      → (s' : Progress) × (fill_front side request (reference ∷ queue) s ≡ some s')
        × Filled side reference
            (tail_levels price queue others)
            (erase reference live_of)
            fill_of
            (trade_with request maker fill_of)
            s
            s'
  unfolding emit_trade_event
  round_gone small =
      let (e', run, r) =
        settle_gone side price reference queue others left_of traded
          (lookup-insert_self reference left_of s.engine.live_orders) ok.owned.0.named
          ok.owned.0.sided ok.owned.0.priced
          (levels_of-traded side (trade_with request maker fill_of) live_of s.engine ∙ levels)
          queue_live small in
      (
        _,
        front_run e' run,
        record {
          remaining_eq = refl;
          trades_eq = refl;
          levels_eq = r.levels_eq;
          opposite_eq =
              r.opposite_eq
              ∙ levels_of-traded (opposite side) (trade_with request maker fill_of) live_of
                  s.engine;
          live_eq = r.live_eq;
        },
      )

  unfoldable pub left_Owned :
      leb_ℤ left_of.open_quantity epsilon ≡ false → Owned live_of side price reference
  left_Owned large = record {
    order = left_of;
    at = lookup-insert_self reference left_of s.engine.live_orders;
    named = ok.owned.0.named;
    sided = ok.owned.0.sided;
    priced = ok.owned.0.priced;
    large = leb_ℤ→<ℤ left_of.open_quantity epsilon large;
  }

  pub round_kept :
      leb_ℤ left_of.open_quantity epsilon ≡ false
      → (s' : Progress) × (fill_front side request (reference ∷ queue) s ≡ some s')
        × Filled side reference
            ((price, reference ∷ queue) ∷ others)
            live_of
            fill_of
            (trade_with request maker fill_of)
            s
            s'
  unfolding emit_trade_event
  round_kept large =
      let (e', run, r) =
        settle_kept side price reference queue left_of traded (left_Owned large, queue_live)
          large in
      let shell =
        λ (t : Side). levels_of-traded t (trade_with request maker fill_of) live_of s.engine in
      (
        _,
        front_run e' run,
        record {
          remaining_eq = refl;
          trades_eq = refl;
          levels_eq = r.levels_eq ∙ shell side ∙ levels;
          opposite_eq = r.opposite_eq ∙ shell (opposite side);
          live_eq = r.live_eq;
        },
      )
