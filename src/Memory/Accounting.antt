-- ===== src/Memory/Accounting.antt =====
-- infrastructure/memory-pool: each operation leaves every block in one place.
use collections.Prelude.{
  ℕ, suc, ◌+◌, ◌-◌, ◌/◌, ◌%◌, ◌^◌, ◌<◌, ◌≡◌, refl, ap, false, Bool-cases, ◌&&◌, Option, some, List,
  [], ◌∷◌, length, ltb, leb, if◌then◌else◌, ◌==◌, nat_eq, inl, inr, arith,
}
use collections.Prelude.Dict.{Dict, insert, lookup-insert_self}
use collections.Memory.Pool.{
  Block, FixedBlockPool, local_cache, add_blocks, transfer, flush_loop, min_ℕ, refill_target,
  allocate_slab, fill_global, move_blocks, refill_local_cache, take_block, allocate_refilled,
  allocate, flush_local_cache, deallocate,
}
use collections.Memory.Counting.{
  is_same, one_if, count, cached, is_issued, count-add_blocks, cached-insert, count-transfer,
  transfer-some, length-add_blocks, count-flush_loop,
}

-- Each block of the slabs is in one place, and no other block anywhere.
pub record IsAccounted (p : FixedBlockPool) (held : List Block) : Type 0 where
  pub placed :
      (b : Block)
      → count b held + (cached b p.local_caches + count b p.global_free_blocks)
        ≡ one_if (is_issued b p)
  pub outstanding_eq : p.outstanding_blocks ≡ length held % 2 ^ 64
  pub positive : 0 < p.blocks_per_slab

allocate_slab-IsAccounted :
    (p : FixedBlockPool) (held : List Block)
    → IsAccounted p held
    → IsAccounted (allocate_slab p) held
unfolding allocate_slab
allocate_slab-IsAccounted p held a = record {
  placed = λ b.
      one_more b (count b held) (cached b p.local_caches) (count b p.global_free_blocks)
        (count b (add_blocks p.slabs p.blocks_per_slab p.global_free_blocks)) p.slabs
        p.blocks_per_slab (a.placed b)
        (count-add_blocks b p.slabs p.blocks_per_slab p.global_free_blocks);
  outstanding_eq = a.outstanding_eq;
  positive = a.positive;
}
  where
    one_more :
        (b : Block) (h c g g' s n : ℕ)
        → h + (c + g) ≡ one_if (ltb b.slab s && ltb b.offset n)
        → g' ≡ one_if (b.slab == s && ltb b.offset n) + g
        → h + (c + g') ≡ one_if (ltb b.slab (s + 1) && ltb b.offset n)
    one_more b h c g g' s n e f = ground (arith, e, f)

fill_global-IsAccounted :
    (p : FixedBlockPool) (held : List Block)
    → IsAccounted p held
    → IsAccounted (fill_global p) held × (0 < length (fill_global p).global_free_blocks)
unfolding fill_global allocate_slab
fill_global-IsAccounted p held a = elim (Bool-cases (length p.global_free_blocks == 0)) [
  | inl e ↦
      let added = length-add_blocks p.slabs p.blocks_per_slab p.global_free_blocks in
      let some_blocks = a.positive in
      rw (e, fill_global) (allocate_slab-IsAccounted p held a, omega (arith, added, some_blocks))
  | inr e ↦ rw (e, fill_global) (a, above (length p.global_free_blocks) e)
]
  where
    above : (n : ℕ) → (n == 0) ≡ false → 0 < n
    above n e = ground (arith, e)

-- Blocks that move between a cache and the free list.
moved-IsAccounted :
    (thread : ℕ) (cache free : List Block) (p q : FixedBlockPool) (held : List Block)
    → ((b : Block)
        → count b cache + count b free
          ≡ count b (local_cache thread p.local_caches) + count b p.global_free_blocks)
    → q.local_caches ≡ insert thread cache p.local_caches
    → q.global_free_blocks ≡ free
    → q.slabs ≡ p.slabs
    → q.blocks_per_slab ≡ p.blocks_per_slab
    → q.outstanding_blocks ≡ p.outstanding_blocks
    → IsAccounted p held
    → IsAccounted q held
moved-IsAccounted thread cache free p q held same e f g h i a = record {
  placed = λ b.
      let counts = same b in
      let caches = cached-insert b thread cache p.local_caches in
      let before = a.placed b in rw (e, f, g, h) (omega (arith, counts, caches, before));
  outstanding_eq = rw (i) a.outstanding_eq;
  positive = rw (h) a.positive;
}

move_blocks-IsAccounted :
    (thread : ℕ) (p : FixedBlockPool) (held : List Block)
    → IsAccounted p held
    → IsAccounted (move_blocks thread p) held
unfolding move_blocks
move_blocks-IsAccounted thread p held a =
    let n = min_ℕ (refill_target p) (length p.global_free_blocks) in
    let moved = transfer n (local_cache thread p.local_caches) p.global_free_blocks in
    moved-IsAccounted thread moved.0 moved.1 p (move_blocks thread p) held
      (λ b. count-transfer b n (local_cache thread p.local_caches) p.global_free_blocks) refl refl
      refl refl refl a

local_cache-insert :
    (thread : ℕ) (cache : List Block) (caches : Dict ℕ (List Block))
    → local_cache thread (insert thread cache caches) ≡ cache
unfolding local_cache
local_cache-insert thread cache caches =
    rw (lookup-insert_self thread cache caches, local_cache) refl

move_blocks-some :
    (thread : ℕ) (p : FixedBlockPool)
    → 0 < length p.global_free_blocks
    → 0 < length (local_cache thread (move_blocks thread p).local_caches)
unfolding move_blocks
move_blocks-some thread p h =
    let n = min_ℕ (refill_target p) (length p.global_free_blocks) in
    let cache = local_cache thread p.local_caches in
    rw (local_cache-insert thread (transfer n cache p.global_free_blocks).0 p.local_caches) (
      transfer-some n cache p.global_free_blocks
        (least_some (p.local_cache_limit / 2) (length p.global_free_blocks) h) h)
  where
    least_some : (a l : ℕ) → 0 < l → 0 < min_ℕ (if ltb a 1 then 1 else a) l
    least_some a l k = ground (arith, k)

take_block-IsAccounted :
    (thread : ℕ) (block : Block) (rest : List Block) (p : FixedBlockPool) (held : List Block)
    → local_cache thread p.local_caches ≡ block ∷ rest
    → IsAccounted p held
    → IsAccounted (take_block thread rest p) (block ∷ held)
unfolding count
take_block-IsAccounted thread block rest p held e a = record {
  placed = λ b.
      let caches = cached-insert b thread rest p.local_caches in
      let first = ap (count b) e in let before = a.placed b in omega (arith, caches, first, before);
  outstanding_eq = let before = a.outstanding_eq in omega (arith, before);
  positive = a.positive;
}

-- What is answered to one who takes a block.
abbrev pub Taken : Option (FixedBlockPool × Block) → List Block → Type 0
Taken answer held =
    (q : FixedBlockPool) × (b : Block) × (answer ≡ some (q, b)) × IsAccounted q (b ∷ held)

allocate_refilled-Taken :
    (thread : ℕ) (p : FixedBlockPool) (held : List Block)
    → 0 < length (local_cache thread p.local_caches)
    → IsAccounted p held
    → Taken (allocate_refilled thread p) held
unfolding allocate_refilled
allocate_refilled-Taken thread p held h a = go (local_cache thread p.local_caches) refl h
  where
    go :
        (cache : List Block)
        → local_cache thread p.local_caches ≡ cache
        → 0 < length cache
        → Taken (allocate_refilled thread p) held
    go [] e k = absurd (omega (arith, k))
    go (block ∷ rest) e k = (
      take_block thread rest p,
      block,
      rw (e, allocate_refilled) refl,
      take_block-IsAccounted thread block rest p held e a,
    )

pub allocate-Taken :
    (thread : ℕ) (p : FixedBlockPool) (held : List Block)
    → IsAccounted p held
    → Taken (allocate thread p) held
unfolding allocate refill_local_cache
allocate-Taken thread p held a = go (local_cache thread p.local_caches) refl
  where
    go :
        (cache : List Block)
        → local_cache thread p.local_caches ≡ cache
        → Taken (allocate thread p) held
    go [] e =
        let (filled, some_blocks) = fill_global-IsAccounted p held a in
        let (q, b, run, after) =
          allocate_refilled-Taken thread (move_blocks thread (fill_global p)) held
            (move_blocks-some thread (fill_global p) some_blocks)
            (move_blocks-IsAccounted thread (fill_global p) held filled) in
        (q, b, rw (e, allocate) run, after)
    go (block ∷ rest) e =
        let hit : FixedBlockPool = record p {
          local_cache_hits = (p.local_cache_hits + 1) % 2 ^ 64;
        } in
        let same : IsAccounted hit held = record {
          placed = a.placed;
          outstanding_eq = a.outstanding_eq;
          positive = a.positive;
        } in
        (
          take_block thread rest hit,
          block,
          rw (e, allocate) refl,
          take_block-IsAccounted thread block rest hit held e same,
        )

flush_local_cache-IsAccounted :
    (thread retain_count : ℕ) (p : FixedBlockPool) (held : List Block)
    → IsAccounted p held
    → IsAccounted (flush_local_cache thread retain_count p) held
unfolding flush_local_cache
flush_local_cache-IsAccounted thread retain_count p held a =
    let cache = local_cache thread p.local_caches in
    let flushed = flush_loop retain_count cache p.global_free_blocks in
    moved-IsAccounted thread flushed.0 flushed.1 p (flush_local_cache thread retain_count p) held
      (λ b. count-flush_loop b retain_count cache p.global_free_blocks) refl refl refl refl refl a

-- Blocks of which one is the block and the others are the rest.
pub record IsPicked (block : Block) (held rest : List Block) : Type 0 where
  pub counts : (b : Block) → count b held ≡ one_if (is_same block b) + count b rest
  pub length_eq : length held ≡ suc (length rest)

pub deallocate-IsAccounted :
    (thread : ℕ) (block : Block) (p : FixedBlockPool) (held rest : List Block)
    → IsPicked block held rest
    → IsAccounted p held
    → IsAccounted (deallocate thread block p) rest
unfolding deallocate count
deallocate-IsAccounted thread block p held rest picked a =
    let cache = block ∷ local_cache thread p.local_caches in
    let kept : FixedBlockPool = record p {
      local_caches = insert thread cache p.local_caches;
      outstanding_blocks = (p.outstanding_blocks + 2 ^ 64 - 1) % 2 ^ 64;
    } in
    let same : IsAccounted kept rest = record {
      placed = λ b.
          let caches = cached-insert b thread cache p.local_caches in
          let before = a.placed b in
          let counts = picked.counts b in omega (arith, caches, before, counts);
      outstanding_eq =
          one_less (length held) (length rest) p.outstanding_blocks picked.length_eq
            a.outstanding_eq;
      positive = a.positive;
    } in
    elim (Bool-cases (leb p.local_cache_limit (length cache))) [
      | inl e ↦
          rw (e, deallocate)
            (flush_local_cache-IsAccounted thread (p.local_cache_limit / 2) kept rest same)
      | inr e ↦ rw (e, deallocate) same
    ]
  where
    one_less : (h r o : ℕ) → h ≡ suc r → o ≡ h % 2 ^ 64 → (o + 2 ^ 64 - 1) % 2 ^ 64 ≡ r % 2 ^ 64
    one_less h r o e f = omega (arith, e, f)
