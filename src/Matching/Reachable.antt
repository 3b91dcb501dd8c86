-- ===== src/Matching/Reachable.antt =====
-- core-exchange/orderbook-matching-engine: the engines that a run of orders reaches.
use collections.Prelude.{
  ℕ, Bool-cases, Option, some, Option-cases, List, [], ◌∷◌, ◌≡◌, refl, subst, inl, inr,
}
use collections.Prelude.Double.{Ostream}
use collections.Prelude.Text.{is_empty}
use collections.Ring.{make_ring}
use collections.Matching.Types.{OrderRequest, Engine, EngineEvent, make_engine}
use collections.Matching.Book.{◌>>=◌}
use collections.Matching.Engine.{submit}
use collections.Matching.Wellformed.{IsWellformed}
use collections.Matching.Trades.{submit_returns}
use Prim.Native.String.{String}

-- Orders submitted one after the other.
unfoldable pub submit_all : List OrderRequest → Engine → Option Engine
submit_all [] e = some e
submit_all (request ∷ requests) e = submit request e >>= λ answer. submit_all requests answer.0

submit_all-IsWellformed :
    (requests : List OrderRequest) (e : Engine)
    → IsWellformed e
    → (e' : Engine) × (submit_all requests e ≡ some e') × IsWellformed e'
unfolding submit_all
submit_all-IsWellformed [] e w = (e, refl, w)
submit_all-IsWellformed (request ∷ requests) e w =
    let (e₁, r, run, w₁) = submit_returns request e w in
    let (e₂, runs, w₂) = submit_all-IsWellformed requests e₁ w₁ in
    (e₂, rw (run, submit_all) runs, w₂)

some_is : {x y : Engine} → some x ≡ some y → x ≡ y
some_is h = cc

pub make_engine-IsWellformed :
    (out : Ostream) (symbol : String) (capacity : ℕ) (e : Engine)
    → make_engine out symbol capacity ≡ some e
    → IsWellformed e
unfolding make_engine
make_engine-IsWellformed out symbol capacity e h =
    elim (Option-cases (make_ring {A = EngineEvent} capacity)) [
      | inl m ↦ absurd (cc (rw (m, make_engine) at h))
      | inr m ↦ elim (Bool-cases (is_empty symbol)) [
        | inl t ↦ absurd (cc (rw (m.1, t, make_engine) at h))
        | inr t ↦
            subst IsWellformed (some_is (rw (m.1, t, make_engine) at h))
              (record { bids_ok = tt; asks_ok = tt })
      ]
    ]

-- Whatever orders are submitted to a new engine, one after the other, every call returns without
-- undefined behaviour, and the books that are reached are well formed.
pub submit_all_returns :
    (requests : List OrderRequest) (out : Ostream) (symbol : String) (capacity : ℕ) (e : Engine)
    → make_engine out symbol capacity ≡ some e
    → (e' : Engine) × (submit_all requests e ≡ some e') × IsWellformed e'
submit_all_returns requests out symbol capacity e h =
    submit_all-IsWellformed requests e (make_engine-IsWellformed out symbol capacity e h)
