-- ===== src/Gateway/Limits.antt =====
-- core-exchange/unified-access-gateway: a user gets no more requests in a window than the limit.
use collections.Prelude.{
  ℕ, ◌+◌, ◌≤◌, ◌≡◌, refl, ap, sym, ◌∙◌, subst, true, false, Bool-cases, none, some, List, [], ◌∷◌,
  ◌++◌, append_assoc, append-nil, length, length-append, length-keep_if-le, keep_if-append, leb,
  not, inl, inr, arith, if◌then◌else◌, string_eq,
}
use collections.Prelude.Int.{ℤ, ◌≤ℤ◌, ◌-ℤ◌, ltb_ℤ}
use collections.Prelude.Dict.{lookup, insert, lookup-insert_self}
use collections.Gateway.Types.{RateLimit, Gateway}
use collections.Gateway.Access.{user_window, recent, consume_rate_limit}
use Prim.Native.String.{String}

-- Calls of `consume_rate_limit` at these times, and the times of those that were let in.
unfoldable pub consume_all : String → List ℤ → Gateway → Gateway × List ℤ
consume_all user_id [] g = (g, [])
consume_all user_id (time ∷ times) g =
    let once = consume_rate_limit user_id time g in
    let rest = consume_all user_id times once.0 in
    (rest.0, if once.1 then time ∷ rest.1 else rest.1)

-- The times do not go back.
abbrev pub Forward : ℤ → List ℤ → Type 0
Forward from [] = Unit
Forward from (time ∷ times) = from ≤ℤ time × Forward time times

recent-append :
    (limit : RateLimit) (at : ℤ) (xs ys : List ℤ)
    → recent limit at (xs ++ ys) ≡ recent limit at xs ++ recent limit at ys
unfolding recent
recent-append limit at xs ys =
    keep_if-append (λ (time : ℤ). not (ltb_ℤ time (at -ℤ limit.window_ms))) xs ys

recent-shorter :
    (limit : RateLimit) (at : ℤ) (xs : List ℤ) → length (recent limit at xs) ≤ length xs
unfolding recent
recent-shorter limit at xs =
    length-keep_if-le (λ (time : ℤ). not (ltb_ℤ time (at -ℤ limit.window_ms))) xs

-- What is old is old later on.
still_old : (w a b x : ℤ) → a ≤ℤ b → ltb_ℤ x (a -ℤ w) ≡ true → ltb_ℤ x (b -ℤ w) ≡ true
unfolding ◌-ℤ◌
still_old w a b x h k = ground (arith, h, k)

recent-recent :
    (limit : RateLimit) (a b : ℤ) (xs : List ℤ)
    → a ≤ℤ b
    → recent limit b (recent limit a xs) ≡ recent limit b xs
unfolding recent
recent-recent limit a b [] h = refl
recent-recent limit a b (x ∷ xs) h =
    let ih = recent-recent limit a b xs h in
    elim (Bool-cases (ltb_ℤ x (a -ℤ limit.window_ms))) [
      | inl e ↦ rw (e, still_old limit.window_ms a b x h e) ih
      | inr e ↦ elim (Bool-cases (ltb_ℤ x (b -ℤ limit.window_ms))) [
        | inl f ↦ rw (e, f) ih
        | inr f ↦ rw (e, f) (ap (λ l. x ∷ l) ih)
      ]
    ]

-- The window says of later times what the accepted requests say, and is no longer than the limit.
record Tracks (user_id : String) (limit : RateLimit) (from : ℤ) (accepted : List ℤ) (g : Gateway)
    : Type 0 where
  limited : lookup user_id g.user_limits ≡ some limit
  same_later :
      (at : ℤ) → from ≤ℤ at → recent limit at (user_window user_id g) ≡ recent limit at accepted
  bounded : length (user_window user_id g) ≤ limit.max_requests

-- The state after a call, with the window that it leaves.
with_window : String → List ℤ → Gateway → Gateway
with_window user_id times g = record g { user_windows = insert user_id times g.user_windows }

user_window-with_window :
    (user_id : String) (times : List ℤ) (g : Gateway)
    → user_window user_id (with_window user_id times g) ≡ times
unfolding user_window with_window
user_window-with_window user_id times g =
    rw (lookup-insert_self user_id times g.user_windows, user_window) refl

le_trans_ℤ : (a b c : ℤ) → a ≤ℤ b → b ≤ℤ c → a ≤ℤ c
le_trans_ℤ a b c h k = omega (arith, h, k)

module _ (user_id : String) (limit : RateLimit) (from time : ℤ) (accepted : List ℤ)
    (g : Gateway) where
  kept : List ℤ
  kept = recent limit time (user_window user_id g)

  refused :
      lookup user_id g.user_limits ≡ some limit
      → leb limit.max_requests (length kept) ≡ true
      → consume_rate_limit user_id time g ≡ (with_window user_id kept g, false)
  unfolding consume_rate_limit kept with_window
  refused h e = rw (h, consume_rate_limit) (rw (e) refl)

  let_in :
      lookup user_id g.user_limits ≡ some limit
      → leb limit.max_requests (length kept) ≡ false
      → consume_rate_limit user_id time g ≡ (with_window user_id (kept ++ time ∷ []) g, true)
  unfolding consume_rate_limit kept with_window
  let_in h e = rw (h, consume_rate_limit) (rw (e) refl)

  kept-later :
      Tracks user_id limit from accepted g
      → from ≤ℤ time
      → (at : ℤ) → time ≤ℤ at
      → recent limit at kept ≡ recent limit at accepted
  unfolding kept
  kept-later t h at k =
      recent-recent limit time at (user_window user_id g) k
      ∙ t.same_later at (le_trans_ℤ from time at h k)

  refused-Tracks :
      Tracks user_id limit from accepted g
      → from ≤ℤ time
      → Tracks user_id limit time accepted (with_window user_id kept g)
  unfolding with_window kept
  refused-Tracks t h = record {
    limited = t.limited;
    same_later = λ at k. rw (user_window-with_window user_id kept g) (kept-later t h at k);
    bounded = rw (user_window-with_window user_id kept g) (fewer t.bounded);
  }
    where
      fewer : length (user_window user_id g) ≤ limit.max_requests → length kept ≤ limit.max_requests
      fewer b = omega (arith, b, recent-shorter limit time (user_window user_id g))

  let_in-Tracks :
      Tracks user_id limit from accepted g
      → from ≤ℤ time
      → leb limit.max_requests (length kept) ≡ false
      → Tracks user_id limit time
          (accepted ++ time ∷ [])
          (with_window user_id (kept ++ time ∷ []) g)
  unfolding with_window
  let_in-Tracks t h e = record {
    limited = t.limited;
    same_later = λ at k. rw (user_window-with_window user_id (kept ++ time ∷ []) g) (
        recent-append limit at kept (time ∷ [])
        ∙ ap (λ l. l ++ recent limit at (time ∷ [])) (kept-later t h at k)
        ∙ sym (recent-append limit at accepted (time ∷ [])));
    bounded = rw (user_window-with_window user_id (kept ++ time ∷ []) g) (
        room (length kept) (length (kept ++ time ∷ [])) limit.max_requests e
          (length-append kept (time ∷ [])));
  }
    where
      room : (k n m : ℕ) → leb m k ≡ false → n ≡ k + 1 → n ≤ m
      room k n m a b = ground (arith, a, b)

bounded_from :
    (user_id : String) (limit : RateLimit) (times : List ℤ) (from at : ℤ) (accepted : List ℤ)
    (g : Gateway)
    → Tracks user_id limit from accepted g
    → Forward from (times ++ at ∷ [])
    → length (recent limit at (accepted ++ (consume_all user_id times g).1)) ≤ limit.max_requests
unfolding consume_all
bounded_from user_id limit [] from at accepted g t h = rw (append-nil accepted) (
    subst (λ l. length l ≤ limit.max_requests) (t.same_later at h.0)
      (fewer t.bounded (recent-shorter limit at (user_window user_id g))))
  where
    fewer : {a b c : ℕ} → b ≤ c → a ≤ b → a ≤ c
    fewer h k = omega (arith, h, k)
bounded_from user_id limit (time ∷ times) from at accepted g t h =
    let kept = kept user_id limit from time accepted g in
    elim (Bool-cases (leb limit.max_requests (length kept))) [
      | inl e ↦ rw (refused user_id limit from time accepted g t.limited e) (
          bounded_from user_id limit times time at accepted (with_window user_id kept g)
            (refused-Tracks user_id limit from time accepted g t h.0) h.1)
      | inr e ↦ rw (let_in user_id limit from time accepted g t.limited e) (
          subst (λ l. length (recent limit at l) ≤ limit.max_requests)
            (append_assoc accepted (time ∷ [])
              (consume_all user_id times (with_window user_id (kept ++ time ∷ []) g)).1)
            (bounded_from user_id limit times time at (accepted ++ time ∷ [])
              (with_window user_id (kept ++ time ∷ []) g)
              (let_in-Tracks user_id limit from time accepted g t h.0 e) h.1))
    ]

-- For a user with a limit and no window yet, whose requests come at times that do not go back: of
-- the requests that are let in, no more than the limit lie within the window that ends at the last
-- time or later.
pub consume_all-bounded :
    (user_id : String) (limit : RateLimit) (times : List ℤ) (from at : ℤ) (g : Gateway)
    → lookup user_id g.user_limits ≡ some limit
    → lookup user_id g.user_windows ≡ none
    → Forward from (times ++ at ∷ [])
    → length (recent limit at (consume_all user_id times g).1) ≤ limit.max_requests
unfolding user_window
consume_all-bounded user_id limit times from at g limited fresh forward =
    bounded_from user_id limit times from at [] g
      (record {
        limited = limited;
        same_later = λ at k. rw (fresh, user_window) refl;
        bounded = rw (fresh, user_window) (omega arith);
      })
      forward
