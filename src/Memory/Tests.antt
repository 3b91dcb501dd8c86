-- ===== src/Memory/Tests.antt =====
-- Runs of the pool, and its theorem at a concrete pool.
use collections.Prelude.{◌+◌, ◌%◌, ◌^◌, ◌≡◌, refl, Option, none, some, List, [], ◌∷◌, length}
use collections.Memory.Pool.{
  Block, FixedBlockPool, make_pool, allocate, allocate_refilled, refill_local_cache, move_blocks,
  fill_global, allocate_slab, add_blocks, transfer, local_cache, deallocate, flush_local_cache,
  flush_loop,
}
use collections.Memory.Counting.{count, cached, one_if, is_issued}
use collections.Memory.Uses.{Use, taking, giving, use_pool, use_all, use_all-accounts}
use collections.Prelude.Dict.{lookup, insert}

abbrev pool : FixedBlockPool
pool = record {
  block_size = 16;
  blocks_per_slab = 3;
  local_cache_limit = 4;
  slabs = 0;
  local_caches = [];
  global_free_blocks = [];
  outstanding_blocks = 0;
  local_cache_hits = 0;
  global_cache_hits = 0;
  slab_refills = 0;
}

-- Two threads; the second one gives back blocks of the first until its cache is flushed.
abbrev uses : List Use
uses = taking 1 ∷ taking 1 ∷ taking 2 ∷ taking 2 ∷ giving 2 0 ∷ giving 2 0 ∷ giving 2 0 ∷ []

abbrev held_after : Option (FixedBlockPool × List Block) → List Block
held_after none = []
held_after (some (p, held)) = held

last_held : held_after (use_all uses pool []) ≡ record { slab = 0; offset = 1 } ∷ []
unfolding use_all use_pool allocate allocate_refilled refill_local_cache move_blocks fill_global
    allocate_slab add_blocks transfer local_cache deallocate flush_local_cache flush_loop lookup
    insert
last_held = refl

use_all-accounts_example :
    (q : FixedBlockPool) × (held : List Block) × (use_all uses pool [] ≡ some (q, held))
    × ((b : Block)
        → count b held + (cached b q.local_caches + count b q.global_free_blocks)
          ≡ one_if (is_issued b q))
    × (q.outstanding_blocks ≡ length held % 2 ^ 64)
unfolding make_pool
use_all-accounts_example = use_all-accounts uses 16 3 4 pool refl
