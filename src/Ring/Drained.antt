-- ===== src/Ring/Drained.antt =====
-- infrastructure/lock-free-structures/spsc_ring_queue.hpp, as a queue that is emptied after each
-- push: what goes in comes out, and the queue is empty again.
use collections.Prelude.{
  ℕ, zero, suc, ◌+◌, ◌%◌, ◌^◌, ◌≤◌, ◌<◌, ◌≡◌, refl, sym, ap, subst, Bool-cases, inl, inr, ltb, ◌*◌,
  true, false, Option, none, some, ◌==◌, nat_eq, arith,
}
use collections.Ring.{
  make_ring, normalize_capacity, bit_ceil_loop, Ring, push, try_pop, size_approx, slot_of, set_slot,
}

-- Nothing is in the queue.
pub record IsDrained {ℓ} {A : Type ℓ} (q : Ring A) : Type ℓ where
  pub level : q.head ≡ q.tail
  pub in_range : q.head < 2 ^ 64
  pub roomy : 2 ≤ q.capacity

module _ {ℓ} {A : Type ℓ} where
  size-IsDrained : (q : Ring A) → IsDrained q → size_approx q ≡ 0
  unfolding size_approx
  size-IsDrained q d = let even = d.level in let short = d.in_range in omega (arith, even, short)

  -- The queue with one element in it.
  unfoldable pub one_in : A → Ring A → Ring A
  one_in v q = record q {
    buffer = set_slot q.buffer (slot_of q q.tail) (some v);
    tail = (q.tail + 1) % 2 ^ 64;
  }

  pub push-IsDrained : (v : A) (q : Ring A) → IsDrained q → push v q ≡ (one_in v q, true)
  unfolding push one_in
  push-IsDrained v q d =
      let room = d.roomy in
      let not_full : (size_approx q == q.capacity) ≡ false =
        ground (arith, size-IsDrained q d, room) in
      rw (not_full, push) refl

  -- The queue after the element is taken out.
  unfoldable pub taken_out : A → Ring A → Ring A
  unfolding one_in
  taken_out v q = record (one_in v q) {
    buffer = set_slot (one_in v q).buffer (slot_of q q.head) none;
    head = (q.head + 1) % 2 ^ 64;
  }

  set_slot-here :
      (buffer : ℕ → Option A) (i j : ℕ) (v : Option A) → i ≡ j → set_slot buffer i v j ≡ v
  unfolding set_slot
  set_slot-here buffer i j v h = ground (arith, h)

  pub pop-one_in :
      (v : A) (q : Ring A) → IsDrained q → try_pop (one_in v q) ≡ (taken_out v q, some v)
  unfolding try_pop one_in taken_out slot_of
  pop-one_in v q d =
      let even = d.level in
      let short = d.in_range in
      let ahead : (q.head == (q.tail + 1) % 2 ^ 64) ≡ false = ground (arith, even, short) in
      rw (ahead, try_pop)
        (ap (λ x. (taken_out v q, x))
          (set_slot-here q.buffer (slot_of q q.tail) (slot_of q q.head) (some v)
            (ap (slot_of q) (sym even))))

  pub taken_out-IsDrained : (v : A) (q : Ring A) → IsDrained q → IsDrained (taken_out v q)
  unfolding taken_out one_in
  taken_out-IsDrained v q d =
      let even = d.level in record { level = rw even refl; in_range = omega arith; roomy = d.roomy }

  pub pop-IsDrained : (q : Ring A) → IsDrained q → try_pop q ≡ (q, none)
  unfolding try_pop
  pop-IsDrained q d =
      let even = d.level in
      let stop : (q.head == q.tail) ≡ true = ground (arith, even) in rw (stop, try_pop) refl

bit_ceil_loop-ge : (fuel power n : ℕ) → power ≤ bit_ceil_loop fuel power n
unfolding bit_ceil_loop
bit_ceil_loop-ge zero power n = omega arith
bit_ceil_loop-ge (suc fuel) power n = ground (arith, bit_ceil_loop-ge fuel (2 * power) n)

bit_ceil-two : (fuel n : ℕ) → 2 ≤ n → 2 ≤ bit_ceil_loop (suc fuel) 1 n
unfolding bit_ceil_loop
bit_ceil-two fuel n h = ground (arith, h, bit_ceil_loop-ge fuel 2 n)

-- A new queue is empty.
pub make_ring-IsDrained {ℓ} :
    {A : Type ℓ} (requested : ℕ) (q : Ring A) → make_ring requested ≡ some q → IsDrained q
unfolding make_ring normalize_capacity
make_ring-IsDrained {A = A} requested q h = elim (Bool-cases (ltb requested 2)) [
  | inl small ↦ absurd (cc (rw (small, make_ring, normalize_capacity) at h))
  | inr large ↦
      subst IsDrained (some_path (rw (large, make_ring, normalize_capacity) at h)) (record {
        level = refl;
        in_range = omega arith;
        roomy = bit_ceil-two 62 requested (ground (arith, large));
      })
]
  where
    some_path : {x y : Ring A} → some x ≡ some y → x ≡ y
    some_path e = cc e
