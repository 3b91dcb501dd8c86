-- ===== src/Memory/Counting.antt =====
-- infrastructure/memory-pool: in how many places a block is.
use collections.Prelude.{
  ℕ, zero, suc, ◌+◌, ◌≤◌, ◌<◌, ◌≡◌, refl, Bool, true, false, Bool-cases, ◌&&◌, List, [], ◌∷◌,
  length, ltb, ◌==◌, nat_eq, inl, inr, arith,
}
use collections.Prelude.Dict.{Dict, lookup, insert}
use collections.Memory.Pool.{Block, FixedBlockPool, local_cache, add_blocks, transfer, flush_loop}

abbrev pub is_same : Block → Block → Bool
is_same a b = a.slab == b.slab && a.offset == b.offset

abbrev pub one_if : Bool → ℕ
one_if true = 1
one_if false = 0

unfoldable pub count : Block → List Block → ℕ
count b [] = 0
count b (c ∷ blocks) = one_if (is_same c b) + count b blocks

-- In all local caches.
unfoldable pub cached : Block → Dict ℕ (List Block) → ℕ
unfolding count
cached b [] = 0
cached b ((thread, cache) ∷ caches) = count b cache + cached b caches

-- Whether a block is one of the slabs.
abbrev pub is_issued : Block → FixedBlockPool → Bool
is_issued b p = ltb b.slab p.slabs && ltb b.offset p.blocks_per_slab

pub count-add_blocks :
    (b : Block) (slab n : ℕ) (free : List Block)
    → count b (add_blocks slab n free) ≡ one_if (b.slab == slab && ltb b.offset n) + count b free
unfolding count add_blocks
count-add_blocks b slab zero free = ground arith
count-add_blocks b slab (suc n) free = ground (arith, count-add_blocks b slab n free)

pub cached-insert :
    (b : Block) (thread : ℕ) (cache : List Block) (caches : Dict ℕ (List Block))
    → cached b (insert thread cache caches) + count b (local_cache thread caches)
      ≡ cached b caches + count b cache
unfolding cached insert local_cache lookup count
cached-insert b thread cache [] = omega arith
cached-insert b thread cache ((t, old) ∷ caches) =
    let rest = cached-insert b thread cache caches in
    elim (Bool-cases (t == thread)) [
      | inl e ↦ rw (e, local_cache, lookup) (omega arith)
      | inr e ↦ rw (e, local_cache, lookup) (omega (arith, rest))
    ]

pub count-transfer :
    (b : Block) (n : ℕ) (cache free : List Block)
    → count b (transfer n cache free).0 + count b (transfer n cache free).1
      ≡ count b cache + count b free
unfolding count transfer
count-transfer b zero cache free = refl
count-transfer b (suc n) cache [] = refl
count-transfer b (suc n) cache (c ∷ free) =
    let rest = count-transfer b n (c ∷ cache) free in omega (arith, rest)

pub length-transfer :
    (n : ℕ) (cache free : List Block) → length cache ≤ length (transfer n cache free).0
unfolding transfer
length-transfer zero cache free = omega arith
length-transfer (suc n) cache [] = omega arith
length-transfer (suc n) cache (c ∷ free) =
    let rest = length-transfer n (c ∷ cache) free in omega (arith, rest)

pub transfer-some :
    (n : ℕ) (cache free : List Block)
    → 0 < n
    → 0 < length free
    → 0 < length (transfer n cache free).0
unfolding transfer
transfer-some zero cache free h k = absurd (omega (arith, h))
transfer-some (suc n) cache [] h k = absurd (omega (arith, k))
transfer-some (suc n) cache (c ∷ free) h k =
    let rest = length-transfer n (c ∷ cache) free in omega (arith, rest)

pub length-add_blocks :
    (slab n : ℕ) (free : List Block) → length (add_blocks slab n free) ≡ n + length free
unfolding add_blocks
length-add_blocks slab zero free = omega arith
length-add_blocks slab (suc n) free =
    let rest = length-add_blocks slab n free in omega (arith, rest)

pub count-flush_loop :
    (b : Block) (retain_count : ℕ) (cache free : List Block)
    → count b (flush_loop retain_count cache free).0
        + count b (flush_loop retain_count cache free).1
      ≡ count b cache + count b free
unfolding count flush_loop
count-flush_loop b retain_count [] free = refl
count-flush_loop b retain_count (c ∷ cache) free =
    elim (Bool-cases (ltb retain_count (suc (length cache)))) [
      | inl e ↦
          let rest = count-flush_loop b retain_count cache (c ∷ free) in
          rw (e, flush_loop) (omega (arith, rest))
      | inr e ↦ rw (e, flush_loop) refl
    ]
