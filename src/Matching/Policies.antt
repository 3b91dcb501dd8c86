-- ===== src/Matching/Policies.antt =====
-- What the time in force of an order promises.
use collections.Prelude.{
  false, some, none, [], ◌≡◌, refl, sym, subst, inl, inr, ◌⊎◌, if◌then◌else◌, string_eq,
}
use collections.Prelude.Int.{pos, ◌≤ℤ◌, leb_ℤ→≤ℤ}
use collections.Prelude.Double.{epsilon}
use collections.Prelude.Dict.{lookup}
use collections.Matching.Types.{fok, OrderRequest, MatchResult, Engine}
use collections.Matching.Engine.{submit}
use collections.Matching.Wellformed.{IsWellformed}
use collections.Matching.Submit.{SameBooks, resting, outcome_of}
use collections.Matching.Finalize.{rests}
use collections.Matching.Trades.{answer_of}
use Prim.Native.String.{String}

-- On well-formed books a fill-or-kill order is all or nothing: it is rejected with no trade, no
-- execution and no change of the books, or at most the tolerance of it remains.
pub submit_fill_or_kill :
    (request : OrderRequest) (e e' : Engine) (r : MatchResult)
    → IsWellformed e
    → request.tif ≡ fok
    → submit request e ≡ some (e', r)
    → ((r.is_accepted ≡ false) × (r.trades ≡ []) × (r.executed_quantity ≡ pos 0) × SameBooks e e')
      ⊎ (r.remaining_quantity ≤ℤ epsilon)
submit_fill_or_kill request e e' r w kind run = elim (answer_of request e e' r w run).1 [
  | inl refused ↦ inl (refused.accepted_eq, refused.trades_eq, refused.executed_eq, refused.same)
  | inr done ↦ inr (
      rw done.remaining_eq
        (leb_ℤ→≤ℤ (outcome_of request e).left epsilon (done.fills_whole (rw kind refl))))
]

-- On well-formed books, an order that is not refused with the books
-- unchanged is live afterwards exactly if it is a limit order, not immediate-or-cancel, with more
-- than the tolerance remaining, and then it rests at its own price with the remaining quantity.
pub submit-rests :
    (request : OrderRequest) (e e' : Engine) (r : MatchResult)
    → IsWellformed e
    → submit request e ≡ some (e', r)
    → ((r.is_accepted ≡ false) × (r.trades ≡ []) × SameBooks e e')
      ⊎ (lookup request.order_id e'.live_orders ≡ (
          if rests request r.remaining_quantity
          then some (resting request r.remaining_quantity)
          else none))
submit-rests request e e' r w run = elim (answer_of request e e' r w run).1 [
  | inl refused ↦ inl (refused.accepted_eq, refused.trades_eq, refused.same)
  | inr done ↦ inr (
      subst
        (λ x.
          lookup request.order_id e'.live_orders
          ≡ (if rests request x then some (resting request x) else none))
        (sym done.remaining_eq) done.rests_eq)
]
