-- ===== src/Mempool/Outcome.antt =====
-- src/mempool.c: `mempool_alloc_sized` on every branch.
use tproxy2ss.Base.{
  ℕ, suc, length, ◌<◌, ◌+◌, ◌-◌, ◌*◌, ◌/◌, ◌≤◌, ◌≡◌, ◌⊎◌, inl, inr, refl, sym, arith, true, Option,
  none, some, List, [], ◌∷◌, ltb, Bool-cases, le→ltb, ltb→le, ltb→lt, ==_iff,
}
use mathlib.Core.Path.{subst}
use tproxy2ss.Mempool.Defs.{cacheline_size, size_max, Pool, expand_pool_batch, refill, alloc}
use tproxy2ss.Mempool.Chain.{IsValid}
use tproxy2ss.Mempool.Alloc.{alloc-IsValid, alloc-too_big, alloc-empty}
use tproxy2ss.Mempool.Blocks.{AllApart, length-blocks_from}
use tproxy2ss.Mempool.Grow.{batch_of, alloc-grown}

-- A slab that `posix_memalign` gives for the next batch overlaps no other slab of the pool.
abbrev pub IsFresh : Option ℕ → Pool → Type 0
IsFresh none pool = Unit
IsFresh (some raw) pool =
    AllApart pool.total_size raw (raw + cacheline_size + batch_of pool * pool.total_size)
      pool.slab_list

-- Why an allocation is refused: the size does not fit, or no block is free and the pool is at its
-- limit, or no block is free and a slab for a batch cannot be had, or would be too large.
pub data IsReason (slab : Option ℕ) (pool : Pool) (size : ℕ) (avail : List ℕ) : Type 0 where
  too_big : pool.block_size < size → IsReason slab pool size avail
  at_limit : avail ≡ [] → pool.max_blocks ≤ pool.pool_blocks → IsReason slab pool size avail
  no_slab :
      avail ≡ []
      → (slab ≡ none) ⊎ ((size_max - cacheline_size) / pool.total_size < batch_of pool)
      → IsReason slab pool size avail

-- An allocation is NULL for a reason and changes no block, or hands out the first free block, or
-- the first block of a new batch.
pub data Outcome (slab : Option ℕ) (pool : Pool) (size : ℕ) (avail used : List ℕ) (r : Pool × ℕ)
    : Type 0 where
  refused :
      IsReason slab pool size avail
      → r.1 ≡ 0
      → IsValid r.0 avail used
      → Outcome slab pool size avail used r
  taken :
      (x : ℕ) (rest : List ℕ)
      → size ≤ pool.block_size
      → avail ≡ x ∷ rest
      → r.1 ≡ x + cacheline_size
      → IsValid r.0 rest (x ∷ used)
      → Outcome slab pool size avail used r
  grown :
      (x : ℕ) (rest : List ℕ)
      → size ≤ pool.block_size
      → avail ≡ []
      → pool.pool_blocks < pool.max_blocks
      → suc (length rest) ≡ batch_of pool
      → r.1 ≡ x + cacheline_size
      → IsValid r.0 rest (x ∷ used)
      → Outcome slab pool size avail used r

-- The warning counter plays no part in the invariant.
IsValid-warned :
    (pool : Pool) (avail used : List ℕ)
    → IsValid pool avail used
    → IsValid (record pool { warn_counter = pool.warn_counter + 1 }) avail used
IsValid-warned pool avail used v = record {
  chain = v.chain;
  in_use = v.in_use;
  apart = v.apart;
  owned = v.owned;
  free_count = v.free_count;
  blocks = v.blocks;
  balance = v.balance;
  bounded = v.bounded;
  stride = v.stride;
  cached = v.cached;
}

-- No slab can be had for the batch.
refill-failed :
    (slab : Option ℕ) (pool : Pool)
    → (slab ≡ none) ⊎ (ltb ((size_max - cacheline_size) / pool.total_size) (batch_of pool) ≡ true)
    → refill slab pool ≡ pool
unfolding refill expand_pool_batch
refill-failed slab pool (inl e) = ground arith
refill-failed slab pool (inr e) = ground arith

alloc-failed :
    (slab : Option ℕ) (pool : Pool) (size : ℕ)
    → size ≤ pool.block_size
    → pool.free_list ≡ 0
    → refill slab pool ≡ pool
    → alloc slab pool size ≡ (record pool { warn_counter = pool.warn_counter + 1 }, 0)
unfolding alloc
alloc-failed slab pool size h empty same =
    rw (le→ltb pool.block_size size h, same, (==_iff pool.free_list 0).1 empty) refl

-- With no free block, a pool below its limit grows when it can.
grows-Outcome :
    (slab : Option ℕ) (pool : Pool) (size : ℕ) (used : List ℕ)
    → IsValid pool [] used
    → IsFresh slab pool
    → size ≤ pool.block_size
    → pool.pool_blocks < pool.max_blocks
    → Outcome slab pool size [] used (alloc slab pool size)
grows-Outcome none pool size used v fresh fits more =
    subst (Outcome none pool size [] used)
      (sym (alloc-failed none pool size fits v.chain (refill-failed none pool (inl refl))))
      (refused (no_slab refl (inl refl)) refl (IsValid-warned pool [] used v))
grows-Outcome (some raw) pool size used v fresh fits more =
    let room = (size_max - cacheline_size) / pool.total_size in
    elim (Bool-cases (ltb room (batch_of pool))) [
      | inl over ↦
          subst (Outcome (some raw) pool size [] used)
            (sym (
              alloc-failed (some raw) pool size fits v.chain
                (refill-failed (some raw) pool (inr over))))
            (refused (no_slab refl (inr (ltb→lt room (batch_of pool) over))) refl
              (IsValid-warned pool [] used v))
      | inr within ↦
          let (at, w) =
            alloc-grown pool size raw used v fits more (ltb→le room (batch_of pool) within) fresh in
          let rest =
            length-blocks_from pool.total_size (batch_of pool - 1)
              (raw + cacheline_size + pool.total_size) in
          grown (raw + cacheline_size) _ fits refl more (omega (arith, rest, more)) at w
    ]

fitting-Outcome :
    (slab : Option ℕ) (pool : Pool) (size : ℕ) (avail used : List ℕ)
    → IsValid pool avail used
    → IsFresh slab pool
    → size ≤ pool.block_size
    → Outcome slab pool size avail used (alloc slab pool size)
fitting-Outcome slab pool size (x ∷ avail) used v fresh fits =
    let (at, w) = alloc-IsValid slab pool size x avail used v fits in taken x avail fits refl at w
fitting-Outcome slab pool size [] used v fresh fits =
    elim (Bool-cases (ltb pool.pool_blocks pool.max_blocks)) [
      | inl more ↦
          grows-Outcome slab pool size used v fresh fits
            (ltb→lt pool.pool_blocks pool.max_blocks more)
      | inr limit ↦
          subst (Outcome slab pool size [] used)
            (sym (alloc-empty slab pool size fits ((==_iff pool.free_list 0).1 v.chain) limit))
            (refused (at_limit refl (ltb→le pool.pool_blocks pool.max_blocks limit)) refl
              (IsValid-warned pool [] used v))
    ]

-- In a well-formed pool, where a slab for its growth, when one can be had, overlaps no other slab of
-- the pool, an allocation keeps the pool well formed and does one of three things. For a size that
-- fits it hands out the head of the free list; or, when no block is free and the pool is below its
-- limit, the first of a batch of 32 new blocks, or of those that are left to the limit, the others
-- being free then. It is NULL, and changes neither the free blocks nor the held ones, only when the
-- size does not fit, or no block is free and the pool is at its limit, or no slab can be had.
pub alloc-Outcome :
    (slab : Option ℕ) (pool : Pool) (size : ℕ) (avail used : List ℕ)
    → IsValid pool avail used
    → IsFresh slab pool
    → Outcome slab pool size avail used (alloc slab pool size)
alloc-Outcome slab pool size avail used v fresh = elim (Bool-cases (ltb pool.block_size size)) [
  | inl big ↦
      subst (Outcome slab pool size avail used) (sym (alloc-too_big slab pool size big))
        (refused (too_big (ltb→lt pool.block_size size big)) refl v)
  | inr small ↦
      fitting-Outcome slab pool size avail used v fresh (ltb→le pool.block_size size small)
]
