-- ===== src/Gateway/Longest.antt =====
-- core-exchange/unified-access-gateway: a path takes the route with the longest prefix.
use collections.Prelude.{
  ℕ, ◌≤◌, ◌≡◌, refl, true, false, Bool-cases, Option, none, some, List, [], ◌∷◌, ◌++◌, append_assoc,
  append-nil, All, inl, inr, ◌⊎◌, arith, ltb, subst, sym,
}
use collections.Prelude.Sorting.{Sort, IsSort, Ordered, All-perm, mem_perm}
use collections.Gateway.Types.{RouteConfig, Gateway}
use collections.Gateway.Access.{configure_route, longer_prefix, first_match, match_route}
use mathlib.Core.List.{Memᴰ, Permᴰ}
use mathlib.Core.List.Permᴰ
use text.Mathlib.Text.{starts_with}
use Prim.Native.String.{String, len}

-- The answer is a route that the path begins with and that has the longest prefix of those, and
-- there is no answer if there is no such route.
abbrev pub LongestMatch : String → List RouteConfig → Option RouteConfig → Type 0
LongestMatch path routes none = All (λ other. starts_with path other.path_prefix ≡ false) routes
LongestMatch path routes (some found) =
    Memᴰ found routes
    × (starts_with path found.path_prefix ≡ true)
    × All
        (λ other.
          (starts_with path other.path_prefix ≡ false)
          ⊎ (len other.path_prefix ≤ len found.path_prefix))
        routes

no_longer :
    (path : String) (found : RouteConfig) (routes : List RouteConfig)
    → All (λ other. longer_prefix other found ≡ false) routes
    → All
        (λ other.
          (starts_with path other.path_prefix ≡ false)
          ⊎ (len other.path_prefix ≤ len found.path_prefix))
        routes
no_longer path found [] h = tt
no_longer path found (other ∷ routes) h = (
  inr (shorter (len other.path_prefix) (len found.path_prefix) h.0),
  no_longer path found routes h.1,
)
  where
    shorter : (a b : ℕ) → ltb b a ≡ false → a ≤ b
    shorter a b e = ground (arith, e)

first_match-longest :
    (path : String) (routes : List RouteConfig)
    → Ordered longer_prefix routes
    → LongestMatch path routes (first_match path routes)
unfolding first_match
first_match-longest path [] h = tt
first_match-longest path (route ∷ routes) h =
    elim (Bool-cases (starts_with path route.path_prefix)) [
      | inl e ↦ rw (e) (Memᴰ.head refl, e, (inr (omega arith), no_longer path route routes h.0))
      | inr e ↦ rw (e) (further (first_match path routes) e (first_match-longest path routes h.1))
    ]
  where
    further :
        (answer : Option RouteConfig)
        → starts_with path route.path_prefix ≡ false
        → LongestMatch path routes answer
        → LongestMatch path (route ∷ routes) answer
    further none e k = (e, k)
    further (some found) e k = (Memᴰ.tail k.0, k.1, (inl e, k.2))

longest_of_same :
    (path : String) (answer : Option RouteConfig) (routes others : List RouteConfig)
    → Permᴰ routes others
    → LongestMatch path routes answer
    → LongestMatch path others answer
longest_of_same path none routes others p h =
    All-perm (λ other. starts_with path other.path_prefix ≡ false) p h
longest_of_same path (some found) routes others p h = (
  mem_perm p h.0,
  h.1,
  All-perm
      (λ (other : RouteConfig).
        (starts_with path other.path_prefix ≡ false)
        ⊎ (len other.path_prefix ≤ len found.path_prefix))
      p h.2,
)

-- Routes configured one after the other.
unfoldable pub configure_all : Sort RouteConfig → List RouteConfig → Gateway → Gateway
configure_all std [] g = g
configure_all std (route ∷ routes) g =
    configure_all std routes
      (configure_route std route.path_prefix route.backend route.route_name g)

configure_all-elements :
    (std : Sort RouteConfig) (added : List RouteConfig) (g : Gateway)
    → IsSort longer_prefix std
    → Ordered longer_prefix g.routes
    → Permᴰ (configure_all std added g).routes (g.routes ++ added)
      × Ordered longer_prefix (configure_all std added g).routes
unfolding configure_all configure_route
configure_all-elements std [] g sorts h =
    (subst (λ x. Permᴰ g.routes x) (sym (append-nil g.routes)) (Permᴰ.refl g.routes), h)
configure_all-elements std (route ∷ added) g sorts h =
    let once = configure_route std route.path_prefix route.backend route.route_name g in
    let ih =
      configure_all-elements std added once sorts (sorts.in_order (g.routes ++ route ∷ [])) in
    (
      subst (λ x. Permᴰ (configure_all std added once).routes x)
          (append_assoc g.routes (route ∷ []) added)
          (Permᴰ.trans ih.0
            (Permᴰ.append_right added (sorts.same_elements (g.routes ++ route ∷ [])))),
      ih.1,
    )

-- Whatever routes are configured on a gateway that has none, in whatever order, a path is matched
-- with a route of the longest prefix that it begins with, and with none if there is no such route;
-- the sort gives its elements in some order that agrees with the comparison.
pub match_route-LongestMatch :
    (std : Sort RouteConfig) (added : List RouteConfig) (path : String) (g : Gateway)
    → IsSort longer_prefix std
    → g.routes ≡ []
    → LongestMatch path added (match_route path (configure_all std added g))
unfolding match_route
match_route-LongestMatch std added path g sorts fresh =
    let (elements, ordered) =
      configure_all-elements std added g sorts (subst (Ordered longer_prefix) (sym fresh) tt) in
    longest_of_same path (match_route path (configure_all std added g))
      (configure_all std added g).routes added
      (subst (λ x. Permᴰ (configure_all std added g).routes (x ++ added)) fresh elements)
      (first_match-longest path (configure_all std added g).routes ordered)
