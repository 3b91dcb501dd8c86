-- ===== src/Ring/Sized.antt =====
-- infrastructure/lock-free-structures/spsc_ring_queue.hpp: the queue holds no more than its capacity,
-- and each pop leaves less.
use collections.Prelude.{
  ℕ, suc, ◌+◌, ◌-◌, ◌%◌, ◌^◌, ◌≤◌, ◌<◌, ◌≡◌, subst, false, Bool-cases, some, ◌==◌, nat_eq, ltb, inl,
  inr, arith,
}
use collections.Ring.{Ring, make_ring, normalize_capacity, push, try_pop, size_approx}

pub record IsSized {ℓ} {A : Type ℓ} (q : Ring A) : Type ℓ where
  pub head_in : q.head < 2 ^ 64
  pub tail_in : q.tail < 2 ^ 64
  pub fits : size_approx q ≤ q.capacity

module _ {ℓ} {A : Type ℓ} where
  pub push-IsSized : (v : A) (q : Ring A) → IsSized q → IsSized (push v q).0
  unfolding push size_approx
  push-IsSized v q s = elim (Bool-cases (size_approx q == q.capacity)) [
    | inl e ↦ rw (e, push) s
    | inr e ↦
        rw (e, push)
          (record {
            head_in = s.head_in;
            tail_in = omega arith;
            fits = more q.head q.tail q.capacity s.head_in s.tail_in s.fits e;
          })
  ]
    where
      more :
          (h t c : ℕ)
          → h < 2 ^ 64
          → t < 2 ^ 64
          → (t + 2 ^ 64 - h) % 2 ^ 64 ≤ c
          → ((t + 2 ^ 64 - h) % 2 ^ 64 == c) ≡ false
          → ((t + 1) % 2 ^ 64 + 2 ^ 64 - h) % 2 ^ 64 ≤ c
      more h t c a b d e = ground (arith, a, b, d, e)

  pub pop-IsSized : (q : Ring A) → IsSized q → IsSized (try_pop q).0
  unfolding try_pop size_approx
  pop-IsSized q s = elim (Bool-cases (q.head == q.tail)) [
    | inl e ↦ rw (e, try_pop) s
    | inr e ↦
        rw (e, try_pop)
          (record {
            head_in = omega arith;
            tail_in = s.tail_in;
            fits = less q.head q.tail q.capacity s.head_in s.tail_in s.fits e;
          })
  ]
    where
      less :
          (h t c : ℕ)
          → h < 2 ^ 64
          → t < 2 ^ 64
          → (t + 2 ^ 64 - h) % 2 ^ 64 ≤ c
          → (h == t) ≡ false
          → (t + 2 ^ 64 - (h + 1) % 2 ^ 64) % 2 ^ 64 ≤ c
      less h t c a b d e = ground (arith, a, b, d, e)

  -- What is taken out is gone.
  pub size-pop :
      (q : Ring A) (v : A)
      → IsSized q
      → (try_pop q).1 ≡ some v
      → suc (size_approx (try_pop q).0) ≡ size_approx q
  unfolding try_pop size_approx
  size-pop q v s h = elim (Bool-cases (q.head == q.tail)) [
    | inl e ↦ absurd (cc (rw (e, try_pop) at h))
    | inr e ↦ rw (e, try_pop) (one_less q.head q.tail s.head_in s.tail_in e)
  ]
    where
      one_less :
          (h t : ℕ)
          → h < 2 ^ 64
          → t < 2 ^ 64
          → (h == t) ≡ false
          → suc ((t + 2 ^ 64 - (h + 1) % 2 ^ 64) % 2 ^ 64) ≡ (t + 2 ^ 64 - h) % 2 ^ 64
      one_less h t a b e = ground (arith, a, b, e)

pub make_ring-IsSized {ℓ} :
    {A : Type ℓ} (requested : ℕ) (q : Ring A) → make_ring requested ≡ some q → IsSized q
unfolding make_ring normalize_capacity size_approx
make_ring-IsSized {A = A} requested q h = elim (Bool-cases (ltb requested 2)) [
  | inl small ↦ absurd (cc (rw (small, make_ring, normalize_capacity) at h))
  | inr large ↦
      subst IsSized (some_path (rw (large, make_ring, normalize_capacity) at h))
        (record { head_in = omega arith; tail_in = omega arith; fits = omega arith })
]
  where
    some_path : {x y : Ring A} → some x ≡ some y → x ≡ y
    some_path e = cc e
