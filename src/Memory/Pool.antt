-- ===== src/Memory/Pool.antt =====
-- infrastructure/memory-pool/fixed_block_pool.hpp. A pointer to a block is its slab's number and its
-- offset in the slab. The back of a vector is the front of its list. A thread is a number, and each method
-- is one step: what it shares with other threads it changes under the mutex or by atomic additions.
use collections.Prelude.{
  ℕ, zero, suc, ◌+◌, ◌-◌, ◌*◌, ◌/◌, ◌%◌, ◌^◌, ◌||◌, Option, none, some, List, [], ◌∷◌, length, ltb,
  leb, if◌then◌else◌, ◌==◌, nat_eq,
}
use collections.Prelude.Dict.{Dict, lookup, insert}

pub record Block : Type 0 where
  pub slab : ℕ
  pub offset : ℕ

pub record FixedBlockPool : Type 0 where
  pub block_size : ℕ
  pub blocks_per_slab : ℕ
  pub local_cache_limit : ℕ
  pub slabs : ℕ
  pub local_caches : Dict ℕ (List Block)
  pub global_free_blocks : List Block
  pub outstanding_blocks : ℕ
  pub local_cache_hits : ℕ
  pub global_cache_hits : ℕ
  pub slab_refills : ℕ

pub record PoolStats : Type 0 where
  pub block_size : ℕ
  pub blocks_per_slab : ℕ
  pub slabs_allocated : ℕ
  pub total_blocks : ℕ
  pub global_free_blocks : ℕ
  pub outstanding_blocks : ℕ
  pub local_cache_hits : ℕ
  pub global_cache_hits : ℕ
  pub slab_refills : ℕ

-- The constructor; `none` is an exception. A pointer has eight bytes.
unfoldable pub make_pool : ℕ → ℕ → ℕ → Option FixedBlockPool
make_pool block_size blocks_per_slab local_cache_limit =
    if blocks_per_slab == 0 || local_cache_limit == 0
    then none
    else some (record {
      block_size = if ltb block_size 8 then 8 else block_size;
      blocks_per_slab = blocks_per_slab;
      local_cache_limit = local_cache_limit;
      slabs = 0;
      local_caches = [];
      global_free_blocks = [];
      outstanding_blocks = 0;
      local_cache_hits = 0;
      global_cache_hits = 0;
      slab_refills = 0;
    })

-- `local_caches()[this]` of a thread.
unfoldable pub local_cache : ℕ → Dict ℕ (List Block) → List Block
local_cache thread caches = elim (lookup thread caches) [ none ↦ [] | some cache ↦ cache ]

-- The loop of `allocate_slab`.
unfoldable pub add_blocks : ℕ → ℕ → List Block → List Block
add_blocks slab zero free = free
add_blocks slab (suc count) free =
    record { slab = slab; offset = count } ∷ add_blocks slab count free

unfoldable pub allocate_slab : FixedBlockPool → FixedBlockPool
unfolding add_blocks
allocate_slab p = record p {
  global_free_blocks = add_blocks p.slabs p.blocks_per_slab p.global_free_blocks;
  slabs = p.slabs + 1;
  slab_refills = (p.slab_refills + 1) % 2 ^ 64;
}

-- The loop of `refill_local_cache`; its rounds are no more than the free blocks.
unfoldable pub transfer : ℕ → List Block → List Block → List Block × List Block
transfer zero cache free = (cache, free)
transfer (suc count) cache [] = (cache, [])
transfer (suc count) cache (block ∷ free) = transfer count (block ∷ cache) free

abbrev pub min_ℕ : ℕ → ℕ → ℕ
min_ℕ a b = if ltb b a then b else a

abbrev pub refill_target : FixedBlockPool → ℕ
refill_target p = if ltb (p.local_cache_limit / 2) 1 then 1 else p.local_cache_limit / 2

-- A slab for an empty list of free blocks.
unfoldable pub fill_global : FixedBlockPool → FixedBlockPool
unfolding allocate_slab
fill_global p = if length p.global_free_blocks == 0 then allocate_slab p else p

unfoldable pub move_blocks : ℕ → FixedBlockPool → FixedBlockPool
unfolding transfer local_cache
move_blocks thread p =
    let transfer_count = min_ℕ (refill_target p) (length p.global_free_blocks) in
    let moved = transfer transfer_count (local_cache thread p.local_caches) p.global_free_blocks in
    record p {
      local_caches = insert thread moved.0 p.local_caches;
      global_free_blocks = moved.1;
      global_cache_hits = (p.global_cache_hits + transfer_count) % 2 ^ 64;
    }

unfoldable pub refill_local_cache : ℕ → FixedBlockPool → FixedBlockPool
unfolding fill_global move_blocks
refill_local_cache thread p = move_blocks thread (fill_global p)

-- A block leaves the cache of a thread.
abbrev pub take_block : ℕ → List Block → FixedBlockPool → FixedBlockPool
take_block thread rest p = record p {
  local_caches = insert thread rest p.local_caches;
  outstanding_blocks = (p.outstanding_blocks + 1) % 2 ^ 64;
}

-- `none` is `std::bad_alloc`.
unfoldable pub allocate_refilled : ℕ → FixedBlockPool → Option (FixedBlockPool × Block)
unfolding local_cache
allocate_refilled thread p = elim (local_cache thread p.local_caches) [
  | [] ↦ none
  | block ∷ rest ↦ some (take_block thread rest p, block)
]

unfoldable pub allocate : ℕ → FixedBlockPool → Option (FixedBlockPool × Block)
unfolding allocate_refilled refill_local_cache local_cache
allocate thread p = elim (local_cache thread p.local_caches) [
  | [] ↦ allocate_refilled thread (refill_local_cache thread p)
  | block ∷ rest ↦ some (
    take_block thread rest (record p { local_cache_hits = (p.local_cache_hits + 1) % 2 ^ 64 }),
    block,
  )
]

-- The loop of `flush_local_cache`.
unfoldable pub flush_loop : ℕ → List Block → List Block → List Block × List Block
flush_loop retain_count [] free = ([], free)
flush_loop retain_count (block ∷ cache) free =
    if ltb retain_count (suc (length cache))
    then flush_loop retain_count cache (block ∷ free)
    else (block ∷ cache, free)

unfoldable pub flush_local_cache : ℕ → ℕ → FixedBlockPool → FixedBlockPool
unfolding flush_loop local_cache
flush_local_cache thread retain_count p =
    let flushed =
      flush_loop retain_count (local_cache thread p.local_caches) p.global_free_blocks in
    record p {
      local_caches = insert thread flushed.0 p.local_caches;
      global_free_blocks = flushed.1;
    }

-- For a pointer that is not null.
unfoldable pub deallocate : ℕ → Block → FixedBlockPool → FixedBlockPool
unfolding flush_local_cache local_cache
deallocate thread block p =
    let cache = block ∷ local_cache thread p.local_caches in
    let kept : FixedBlockPool = record p {
      local_caches = insert thread cache p.local_caches;
      outstanding_blocks = (p.outstanding_blocks + 2 ^ 64 - 1) % 2 ^ 64;
    } in
    if leb p.local_cache_limit (length cache)
    then flush_local_cache thread (p.local_cache_limit / 2) kept
    else kept

unfoldable pub stats : FixedBlockPool → PoolStats
stats p = record {
  block_size = p.block_size;
  blocks_per_slab = p.blocks_per_slab;
  slabs_allocated = p.slabs;
  total_blocks = p.slabs * p.blocks_per_slab % 2 ^ 64;
  global_free_blocks = length p.global_free_blocks;
  outstanding_blocks = p.outstanding_blocks;
  local_cache_hits = p.local_cache_hits;
  global_cache_hits = p.global_cache_hits;
  slab_refills = p.slab_refills;
}
