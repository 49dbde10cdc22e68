-- ===== src/Mempool/Alloc.antt =====
-- src/mempool.c: `mempool_alloc_sized` from a free list that is not empty and at the limit,
-- and the count that `mempool_destroy` returns.
use tproxy2ss.Base.{
  ℕ, ◌^◌, ◌<◌, ◌+◌, ◌≤◌, ◌≡◌, refl, sym, ap, arith, true, false, Option, List, ◌∷◌, length, ◌==◌,
  ltb, leb, ◌&&◌, Bool-cases, le→ltb, inl, inr,
}
use mathlib.Core.Path.{subst}
use tproxy2ss.Mempool.Defs.{
  magic_pool, cacheline_size, Header, Pool, take_block, refill, alloc, calloc, destroy, stride_of,
}
use tproxy2ss.Mempool.Chain.{
  IsValid, Chain-store, InUse-store, NotIn-append, Distinct-swap, AllOwned-swap, store_self,
}

pub take_block-IsValid :
    (pool : Pool) (x : ℕ) (avail used : List ℕ)
    → IsValid pool (x ∷ avail) used
    → IsValid (take_block pool).0 avail (x ∷ used)
unfolding take_block
take_block-IsValid pool x avail used v =
    let d = Distinct-swap used avail x v.apart in
    let o = AllOwned-swap pool.total_size pool.slab_list used avail x v.owned in
    let (nu, na) = NotIn-append x used avail d.0 in
    let h : Header = record { magic = magic_pool; next_free = 0 } in
    let head = v.chain.0 in
    rw head (record {
      chain = Chain-store pool.mem x h (pool.mem x).next_free avail na v.chain.3;
      in_use =
          (ap (λ z. z.magic) (store_self pool.mem x h), InUse-store pool.mem x h used nu v.in_use);
      apart = d;
      owned = o;
      free_count = omega (arith, v.free_count);
      blocks = omega (arith, v.blocks);
      balance = omega (arith, v.balance);
      bounded = v.bounded;
      stride = v.stride;
      cached = v.cached;
    })

pub refill_same :
    (slab : Option ℕ) (pool : Pool)
    → ((pool.free_list == 0) && ltb pool.pool_blocks pool.max_blocks) ≡ false
    → refill slab pool ≡ pool
unfolding refill
refill_same slab pool h = rw h refl

alloc-taken :
    (slab : Option ℕ) (pool : Pool) (size : ℕ)
    → size ≤ pool.block_size
    → (pool.free_list == 0) ≡ false
    → alloc slab pool size ≡ take_block pool
unfolding alloc
alloc-taken slab pool size h full =
    rw (le→ltb pool.block_size size h, refill_same slab pool (rw full refl), full) refl

pub alloc-empty :
    (slab : Option ℕ) (pool : Pool) (size : ℕ)
    → size ≤ pool.block_size
    → (pool.free_list == 0) ≡ true
    → ltb pool.pool_blocks pool.max_blocks ≡ false
    → alloc slab pool size ≡ (record pool { warn_counter = pool.warn_counter + 1 }, 0)
unfolding alloc
alloc-empty slab pool size h empty limit =
    rw (le→ltb pool.block_size size h, refill_same slab pool (rw (empty, limit) refl), empty) refl

pub alloc-too_big :
    (slab : Option ℕ) (pool : Pool) (size : ℕ)
    → ltb pool.block_size size ≡ true
    → alloc slab pool size ≡ (pool, 0)
unfolding alloc
alloc-too_big slab pool size h = rw h refl

taken : (pool : Pool) (x : ℕ) → pool.free_list ≡ x → (take_block pool).1 ≡ x + cacheline_size
unfolding take_block
taken pool x e = ap (λ a. a + cacheline_size) e

-- In a well-formed pool with a free block at the head of the list, and for a size that fits, an
-- allocation returns that block's payload, takes exactly that block off the list, and keeps the
-- pool well formed.
pub alloc-IsValid :
    (slab : Option ℕ) (pool : Pool) (size x : ℕ) (avail used : List ℕ)
    → IsValid pool (x ∷ avail) used
    → size ≤ pool.block_size
    → ((alloc slab pool size).1 ≡ x + cacheline_size)
      × IsValid (alloc slab pool size).0 avail (x ∷ used)
alloc-IsValid slab pool size x avail used v h =
    let full : (pool.free_list == 0) ≡ false = ground (arith, v.chain.0, v.chain.1) in
    subst (λ (r : Pool × ℕ). (r.1 ≡ x + cacheline_size) × IsValid r.0 avail (x ∷ used))
      (sym (alloc-taken slab pool size h full))
      (taken pool x v.chain.0, take_block-IsValid pool x avail used v)

-- For a well-formed pool the leak count that `mempool_destroy` returns is the number of blocks
-- that callers still hold.
pub destroy-leaks :
    (pool : Pool) (avail used : List ℕ) → IsValid pool avail used → destroy pool ≡ length used
unfolding destroy
destroy-leaks pool avail used v =
    let some_left : leb pool.free_count pool.pool_blocks ≡ true =
      ground (arith, v.free_count, v.blocks) in
    rw some_left (omega (arith, v.free_count, v.blocks))

-- For a block size below 2^64 - 127 `mempool_calloc_sized` sets no byte behind the stride of its block.
calloc-within :
    (slab : Option ℕ) (pool : Pool) (size : ℕ)
    → pool.block_size + 127 < 2 ^ 64
    → pool.total_size ≡ stride_of pool.block_size
    → cacheline_size + (calloc slab pool size).2 ≤ pool.total_size
unfolding calloc
calloc-within slab pool size h e = elim (Bool-cases ((alloc slab pool size).1 == 0)) [
  | inl null ↦ rw null (omega (arith, e))
  | inr given ↦ rw given (omega (arith, e))
]
