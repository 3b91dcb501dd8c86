-- ===== src/Gateway/Passing.antt =====
-- core-exchange/unified-access-gateway: what a request has to pass.
use collections.Prelude.{
  ℕ, ◌<◌, ◌≡◌, refl, sym, ◌∙◌, subst, Bool, true, false, Bool-cases, ◌&&◌, none, some, Option-cases,
  length, leb, ◌==◌, eq→≡, string_eq, inl, inr, ◌⊎◌, arith,
}
use collections.Prelude.Dict.{lookup}
use collections.Gateway.Types.{GatewayRequest, RouteConfig, Credential, RateLimit, Gateway}
use collections.Gateway.Access.{
  has_valid_request_shape, has_valid_credentials, expected_signature, match_route,
  backend_available, consume_rate_limit, user_window, recent,
}

-- The request is signed for a credential of its user.
abbrev pub Authentic : GatewayRequest → Gateway → Type 0
Authentic request g =
    (credential : Credential) × (lookup request.api_key g.credentials ≡ some credential)
    × (credential.user_id ≡ request.user_id)
    × (request.signature ≡ expected_signature request.api_key credential.secret request.request_id)

-- The user has no limit, or is below it.
abbrev pub WithinLimit : GatewayRequest → Gateway → Type 0
WithinLimit request g =
    (lookup request.user_id g.user_limits ≡ none)
    ⊎ ((limit : RateLimit) × (lookup request.user_id g.user_limits ≡ some limit)
        × (length (recent limit request.timestamp_ms (user_window request.user_id g))
            < limit.max_requests))

-- What the gateway asks of a request.
pub record Passes (request : GatewayRequest) (at : RouteConfig) (g : Gateway) : Type 0 where
  pub shape_ok : has_valid_request_shape request ≡ true
  pub authentic : Authentic request g
  pub routed : match_route request.path g ≡ some at
  pub healthy : backend_available at.backend g ≡ true
  pub within : WithinLimit request g

pub credentials-Authentic :
    (request : GatewayRequest) (g : Gateway)
    → has_valid_credentials request g ≡ true
    → Authentic request g
unfolding has_valid_credentials
credentials-Authentic request g h = elim (Option-cases (lookup request.api_key g.credentials)) [
  | inl gone ↦ absurd (cc (rw (gone, has_valid_credentials) at h))
  | inr there ↦
      let both =
        split (there.0.user_id == request.user_id)
          (request.signature
            == expected_signature request.api_key there.0.secret request.request_id)
          (rw (there.1, has_valid_credentials) at h) in
      (
        there.0,
        there.1,
        eq→≡ there.0.user_id request.user_id both.0,
        eq→≡ request.signature
            (expected_signature request.api_key there.0.secret request.request_id) both.1,
      )
]
  where
    split : (a b : Bool) → a && b ≡ true → (a ≡ true) × (b ≡ true)
    split true b e = (refl, e)
    split false b e = absurd (cc e)

pub Authentic-credentials :
    (request : GatewayRequest) (g : Gateway)
    → Authentic request g
    → has_valid_credentials request g ≡ true
unfolding has_valid_credentials
Authentic-credentials request g (credential, there, same_user, same_signature) =
    rw (there, has_valid_credentials)
      (join (credential.user_id == request.user_id)
        (request.signature
          == expected_signature request.api_key credential.secret request.request_id)
        ((string_eq.same_iff credential.user_id request.user_id).1 same_user)
        ((string_eq.same_iff request.signature
            (expected_signature request.api_key credential.secret request.request_id)).1
          same_signature))
  where
    join : (a b : Bool) → a ≡ true → b ≡ true → a && b ≡ true
    join true b e f = f
    join false b e f = e

-- The answer of the limit, with the parts of the state that it leaves as they are.
pub record Limited (request : GatewayRequest) (g : Gateway) : Type 0 where
  pub same_queue :
      (consume_rate_limit request.user_id request.timestamp_ms g).0.ingress_queue ≡ g.ingress_queue
  pub answer :
      (((consume_rate_limit request.user_id request.timestamp_ms g).1 ≡ true)
        × WithinLimit request g)
      ⊎ (((consume_rate_limit request.user_id request.timestamp_ms g).1 ≡ false)
          × ¬ WithinLimit request g)

pub limit_answer : (request : GatewayRequest) (g : Gateway) → Limited request g
unfolding consume_rate_limit
limit_answer request g = elim (Option-cases (lookup request.user_id g.user_limits)) [
  | inl gone ↦ record {
    same_queue = rw (gone, consume_rate_limit) refl;
    answer = inl (rw (gone, consume_rate_limit) refl, inl gone);
  }
  | inr there ↦
      let kept = recent there.0 request.timestamp_ms (user_window request.user_id g) in
      elim (Bool-cases (leb there.0.max_requests (length kept))) [
        | inl e ↦ record {
          same_queue = rw (there.1, consume_rate_limit) (rw (e) refl);
          answer = inr (
            rw (there.1, consume_rate_limit) (rw (e) refl),
            λ within. elim within [
              | inl gone ↦ absurd (cc (gone, there.1))
              | inr (limit, same, room) ↦
                  full limit.max_requests
                    (length (recent limit request.timestamp_ms (user_window request.user_id g)))
                    (subst
                      (λ l.
                        leb l.max_requests
                          (length (recent l request.timestamp_ms (user_window request.user_id g)))
                        ≡ true)
                      (some_path (sym there.1 ∙ same)) e)
                    room
            ],
          );
        }
        | inr e ↦ record {
          same_queue = rw (there.1, consume_rate_limit) (rw (e) refl);
          answer = inl (
            rw (there.1, consume_rate_limit) (rw (e) refl),
            inr (there.0, there.1, room there.0.max_requests (length kept) e),
          );
        }
      ]
]
  where
    full : (m n : ℕ) → leb m n ≡ true → n < m → ⊥
    full m n h k = ground (arith, h, k)

    room : (m n : ℕ) → leb m n ≡ false → n < m
    room m n h = ground (arith, h)

    some_path : {x y : RateLimit} → some x ≡ some y → x ≡ y
    some_path e = cc e
