-- ===== src/Memory/Uses.antt =====
-- infrastructure/memory-pool: threads that take blocks and give back what they hold.
use collections.Prelude.{
  ℕ, zero, suc, ◌+◌, ◌%◌, ◌^◌, ◌<◌, ◌≡◌, refl, ap, subst, Bool, false, Bool-cases, ◌&&◌, ◌||◌,
  Option, none, some, List, [], ◌∷◌, length, ltb, ◌==◌, nat_eq, inl, inr, arith,
}
use collections.Memory.Pool.{Block, FixedBlockPool, make_pool, allocate, deallocate}
use collections.Memory.Counting.{one_if, count, cached, is_issued}
use collections.Memory.Accounting.{IsAccounted, IsPicked, allocate-Taken, deallocate-IsAccounted}

-- A use of the pool by a thread: it takes a block, or gives back one of the blocks that are held.
pub data Use : Type 0 where
  taking : ℕ → Use
  giving : ℕ → ℕ → Use

abbrev pub pick : ℕ → List Block → Option (Block × List Block)
pick n [] = none
pick zero (b ∷ held) = some (b, held)
pick (suc n) (b ∷ held) = elim (pick n held) [ none ↦ none | some (c, rest) ↦ some (c, b ∷ rest) ]

-- The pool and the blocks that are held, after a use; `none` is `std::bad_alloc`.
unfoldable pub use_pool : Use → FixedBlockPool → List Block → Option (FixedBlockPool × List Block)
use_pool (taking thread) p held = elim (allocate thread p) [
  | none ↦ none
  | some (q, b) ↦ some (q, b ∷ held)
]
use_pool (giving thread n) p held = elim (pick n held) [
  | none ↦ some (p, held)
  | some (b, rest) ↦ some (deallocate thread b p, rest)
]

unfoldable pub use_all :
    List Use → FixedBlockPool → List Block → Option (FixedBlockPool × List Block)
unfolding use_pool
use_all [] p held = some (p, held)
use_all (u ∷ uses) p held = elim (use_pool u p held) [
  | none ↦ none
  | some (q, rest) ↦ use_all uses q rest
]

-- What is picked, if anything is.
abbrev Picked : List Block → Option (Block × List Block) → Type 0
Picked held none = Unit
Picked held (some (block, rest)) = IsPicked block held rest

pick-Picked : (n : ℕ) (held : List Block) → Picked held (pick n held)
unfolding count
pick-Picked n [] = tt
pick-Picked zero (b ∷ held) = record { counts = λ c. refl; length_eq = refl }
pick-Picked (suc n) (b ∷ held) = go (pick n held) refl (pick-Picked n held)
  where
    go :
        (answer : Option (Block × List Block))
        → pick n held ≡ answer
        → Picked held answer
        → Picked (b ∷ held) (pick (suc n) (b ∷ held))
    go none e picked = rw (e) tt
    go (some (c, rest)) e picked = rw (e) (record {
      counts = λ d. let before = picked.counts d in omega (arith, before);
      length_eq = ap suc picked.length_eq;
    })

-- Uses that are answered, with a pool that is accounted for.
abbrev Accounts : Option (FixedBlockPool × List Block) → Type 0
Accounts answer =
    (q : FixedBlockPool) × (held : List Block) × (answer ≡ some (q, held)) × IsAccounted q held

use_pool-Accounts :
    (u : Use) (p : FixedBlockPool) (held : List Block)
    → IsAccounted p held
    → Accounts (use_pool u p held)
unfolding use_pool
use_pool-Accounts (taking thread) p held a =
    let (q, b, run, after) = allocate-Taken thread p held a in
    (q, b ∷ held, rw (run, use_pool) refl, after)
use_pool-Accounts (giving thread n) p held a = go (pick n held) refl (pick-Picked n held)
  where
    go :
        (answer : Option (Block × List Block))
        → pick n held ≡ answer
        → Picked held answer
        → Accounts (use_pool (giving thread n) p held)
    go none e picked = (p, held, rw (e, use_pool) refl, a)
    go (some (b, rest)) e picked = (
      deallocate thread b p,
      rest,
      rw (e, use_pool) refl,
      deallocate-IsAccounted thread b p held rest picked a,
    )

use_all-Accounts :
    (uses : List Use) (p : FixedBlockPool) (held : List Block)
    → IsAccounted p held
    → Accounts (use_all uses p held)
unfolding use_all
use_all-Accounts [] p held a = (p, held, refl, a)
use_all-Accounts (u ∷ uses) p held a =
    let (q, rest, run, after) = use_pool-Accounts u p held a in
    let (q', rest', runs, last) = use_all-Accounts uses q rest after in
    (q', rest', rw (run, use_all) runs, last)

make_pool-IsAccounted :
    (block_size blocks_per_slab limit : ℕ) (p : FixedBlockPool)
    → make_pool block_size blocks_per_slab limit ≡ some p
    → IsAccounted p []
unfolding make_pool count cached
make_pool-IsAccounted block_size blocks_per_slab limit p made =
    elim (Bool-cases (blocks_per_slab == 0 || limit == 0)) [
      | inl e ↦ absurd (cc (rw (e, make_pool) at made))
      | inr e ↦
          subst (λ q. IsAccounted q []) (some_path (rw (e, make_pool) at made))
            (record {
              placed = λ b. nowhere b.slab (ltb b.offset blocks_per_slab);
              outstanding_eq = refl;
              positive = above blocks_per_slab limit e;
            })
    ]
  where
    some_path : {x y : FixedBlockPool} → some x ≡ some y → x ≡ y
    some_path e = cc e

    nowhere : (n : ℕ) (c : Bool) → 0 ≡ one_if (ltb n 0 && c)
    nowhere n c = ground arith

    above : (n m : ℕ) → (n == 0 || m == 0) ≡ false → 0 < n
    above n m e = ground (arith, e)

-- Whatever blocks threads take from a new pool and give back, each use is answered, with no bad_alloc,
-- each block of the slabs is in one place, held or in one of the caches or free, once there, no other
-- block is anywhere, and the pool counts the blocks that are held, modulo 2^64.
pub use_all-accounts :
    (uses : List Use) (block_size blocks_per_slab limit : ℕ) (p : FixedBlockPool)
    → make_pool block_size blocks_per_slab limit ≡ some p
    → (q : FixedBlockPool) × (held : List Block) × (use_all uses p [] ≡ some (q, held))
      × ((b : Block)
          → count b held + (cached b q.local_caches + count b q.global_free_blocks)
            ≡ one_if (is_issued b q))
      × (q.outstanding_blocks ≡ length held % 2 ^ 64)
use_all-accounts uses block_size blocks_per_slab limit p made =
    let (q, held, run, a) =
      use_all-Accounts uses p [] (make_pool-IsAccounted block_size blocks_per_slab limit p made) in
    (q, held, run, a.placed, a.outstanding_eq)
