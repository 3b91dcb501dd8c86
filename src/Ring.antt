-- ===== src/Ring.antt =====
-- infrastructure/lock-free-structures/spsc_ring_queue.hpp, called by one thread: the bounded
-- queue of the engines' events and audit records. Head and tail count pushes and pops modulo 2^64.
pub mod Drained
pub mod Sized
use collections.Prelude.{
  ℕ, zero, suc, ◌+◌, ◌-◌, ◌*◌, ◌%◌, ◌^◌, Bool, true, false, Option, none, some, if◌then◌else◌, ◌==◌,
  nat_eq, ltb, leb,
}
use Prim.Native.Nat.{bit_and}

-- `std::bit_ceil`: the least power of two that is no smaller, by doubling.
unfoldable pub bit_ceil_loop : ℕ → ℕ → ℕ → ℕ
bit_ceil_loop zero power n = power
bit_ceil_loop (suc fuel) power n =
    let rest = bit_ceil_loop fuel (2 * power) n in if leb n power then power else rest

-- `none` is the exception for a capacity below 2.
unfoldable pub normalize_capacity : ℕ → Option ℕ
unfolding bit_ceil_loop
normalize_capacity requested = if ltb requested 2 then none else some (bit_ceil_loop 63 1 requested)

-- The buffer has a slot for each index below the capacity; an index is masked before it is used.
pub record Ring {ℓ} (A : Type ℓ) : Type ℓ where
  pub capacity : ℕ
  pub buffer : ℕ → Option A
  pub head : ℕ
  pub tail : ℕ

module _ {ℓ} {A : Type ℓ} where
  unfoldable pub make_ring : ℕ → Option (Ring A)
  unfolding normalize_capacity
  make_ring requested = elim (normalize_capacity requested) [
    | none ↦ none
    | some capacity ↦ some (record { capacity = capacity; buffer = λ i. none; head = 0; tail = 0 })
  ]

  -- `index & mask_`
  unfoldable pub slot_of : Ring A → ℕ → ℕ
  slot_of q i = bit_and i (q.capacity - 1)

  -- `tail - head` in `std::size_t`.
  unfoldable pub size_approx : Ring A → ℕ
  size_approx q = (q.tail + 2 ^ 64 - q.head) % 2 ^ 64

  -- An assignment to one slot.
  unfoldable pub set_slot : (ℕ → Option A) → ℕ → Option A → ℕ → Option A
  set_slot buffer i v j = if j == i then v else buffer j

  -- `emplace`, which both `push_impl` overloads call.
  unfoldable pub push : A → Ring A → Ring A × Bool
  unfolding slot_of size_approx set_slot
  push value q = if size_approx q == q.capacity then (q, false) else (
    record q {
      buffer = set_slot q.buffer (slot_of q q.tail) (some value);
      tail = (q.tail + 1) % 2 ^ 64;
    },
    true,
  )

  -- `try_pop_impl`
  unfoldable pub try_pop : Ring A → Ring A × Option A
  unfolding slot_of set_slot
  try_pop q = if q.head == q.tail then (q, none) else (
    record q { buffer = set_slot q.buffer (slot_of q q.head) none; head = (q.head + 1) % 2 ^ 64 },
    q.buffer (slot_of q q.head),
  )
