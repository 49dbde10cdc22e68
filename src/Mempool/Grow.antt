-- ===== src/Mempool/Grow.antt =====
-- src/mempool.c: `expand_pool_batch`, `mempool_create`, and the allocation from a free list that
-- is empty.
use tproxy2ss.Base.{
  ℕ, ◌^◌, suc, ◌+◌, ◌-◌, ◌*◌, ◌/◌, ◌≤◌, ◌<◌, ◌≡◌, inl, inr, refl, sym, ap, ◌∙◌, arith, min, true,
  false, Bool, Option, some, List, [], ◌∷◌, ◌++◌, length, ◌==◌, ltb, if◌then◌else◌, Bool-cases,
  Option-cases, le→ltb, lt→ltb, ==_iff,
}
use mathlib.Core.Path.{subst}
use mathlib.Core.List.{append-nil}
use mathlib.Core.Option.{none-ne-some, some_inj}
use tproxy2ss.Mempool.Defs.{
  cacheline_size, expand_batch_size, size_max, Slab, Memory, Pool, create, empty_pool,
  thread_blocks, expand_at, expand_pool_batch, take_block, refill, alloc,
}
use tproxy2ss.Mempool.Chain.{NotIn, NotIn-join, Distinct, Chain, InUse, IsOwned, AllOwned, IsValid}
use tproxy2ss.Mempool.Alloc.{take_block-IsValid}
use tproxy2ss.Mempool.Blocks.{
  blocks_from, AllApart, length-blocks_from, NotIn-blocks_from, Distinct-blocks_from,
  thread_blocks-other, thread_blocks-Chain, find_slab-away, IsOwned-cons, AllOwned-blocks_from,
}

-- A slab of `n` blocks at `raw`, apart from the slabs of the pool
module _ (t raw n : ℕ) (l : List Slab) (p : 0 < t)
    (away : AllApart t raw (raw + cacheline_size + n * t) l) where
  abbrev fresh : List ℕ
  fresh = blocks_from t n (raw + cacheline_size)

  abbrev grown : List Slab
  grown = record { base = raw; block_count = n } ∷ l

  NotIn-fresh : (x : ℕ) → IsOwned t l x → NotIn x fresh
  NotIn-fresh x o =
      NotIn-blocks_from t n (raw + cacheline_size) x p
        (ground (arith, find_slab-away t raw (raw + cacheline_size + n * t) l x o away))

  InUse-thread_blocks :
      (tail : ℕ) (mem : Memory) (used : List ℕ)
      → AllOwned t l used
      → InUse mem used
      → InUse (thread_blocks t tail n (raw + cacheline_size) mem) used
  InUse-thread_blocks tail mem [] o u = tt
  InUse-thread_blocks tail mem (x ∷ used) o u = (
    ap (λ z. z.magic)
          (thread_blocks-other t tail p n (raw + cacheline_size) mem x (NotIn-fresh x o.0))
        ∙ u.0,
    InUse-thread_blocks tail mem used o.1 u.1,
  )

  Distinct-fresh : (used : List ℕ) → AllOwned t l used → Distinct used → Distinct (used ++ fresh)
  Distinct-fresh [] o d = Distinct-blocks_from t n (raw + cacheline_size) p
  Distinct-fresh (x ∷ used) o d =
      (NotIn-join x used fresh d.0 (NotIn-fresh x o.0), Distinct-fresh used o.1 d.1)

  AllOwned-fresh : (used : List ℕ) → AllOwned t l used → AllOwned t grown (used ++ fresh)
  AllOwned-fresh [] o =
      let first : raw + cacheline_size + 0 * t ≡ raw + cacheline_size = omega arith in
      subst (λ a. AllOwned t grown (blocks_from t n a)) first
        (AllOwned-blocks_from t raw n l 0 n p (omega arith))
  AllOwned-fresh (x ∷ used) o = (IsOwned-cons t _ l x o.0, AllOwned-fresh used o.1)

-- A pool with no free block grows by a slab that overlaps none of its slabs and stays within its
-- limit: the new blocks are its free list, in the order of their addresses.
pub expand_at-IsValid :
    (pool : Pool) (used : List ℕ) (n raw : ℕ)
    → IsValid pool [] used
    → 0 < n
    → pool.pool_blocks + n ≤ pool.max_blocks
    → AllApart pool.total_size raw (raw + cacheline_size + n * pool.total_size) pool.slab_list
    → IsValid (expand_at pool n raw) (blocks_from pool.total_size n (raw + cacheline_size)) used
unfolding expand_at
expand_at-IsValid pool used n raw v some_new room away =
    let t = pool.total_size in
    let l = pool.slab_list in
    let apart : Distinct used = subst Distinct (append-nil used) v.apart in
    let owned : AllOwned t l used = subst (AllOwned t l) (append-nil used) v.owned in
    let size = length-blocks_from t n (raw + cacheline_size) in
    let first : (if n == 0 then pool.free_list else raw + cacheline_size) ≡ raw + cacheline_size =
      ground (arith, some_new) in
    record {
      chain =
          subst
            (λ a.
              Chain (thread_blocks t pool.free_list n (raw + cacheline_size) pool.mem) a
                (blocks_from t n (raw + cacheline_size)))
            first
            (thread_blocks-Chain t pool.free_list v.stride n (raw + cacheline_size) pool.mem v.chain
              (omega arith));
      in_use =
          InUse-thread_blocks t raw n l v.stride away pool.free_list pool.mem used owned v.in_use;
      apart = Distinct-fresh t raw n l v.stride away used owned apart;
      owned = AllOwned-fresh t raw n l v.stride away used owned;
      free_count = omega (arith, v.free_count, size);
      blocks = omega (arith, v.blocks, size);
      balance = v.balance;
      bounded = room;
      stride = v.stride;
      cached = λ s x e b. IsOwned-cons t _ l x (v.cached s x e b);
    }

expand_pool_batch-some :
    (pool : Pool) (n raw : ℕ)
    → 0 < n
    → n ≤ (size_max - cacheline_size) / pool.total_size
    → expand_pool_batch (some raw) pool n ≡ (expand_at pool n raw, n)
unfolding expand_pool_batch
expand_pool_batch-some pool n raw p h =
    let some_new : (n == 0) ≡ false = ground (arith, p) in
    rw (some_new, le→ltb ((size_max - cacheline_size) / pool.total_size) n h) refl

-- The number of blocks that an allocation adds to an empty free list
abbrev pub batch_of : Pool → ℕ
batch_of pool = min expand_batch_size (pool.max_blocks - pool.pool_blocks)

alloc-refill :
    (pool : Pool) (size raw : ℕ)
    → size ≤ pool.block_size
    → pool.free_list ≡ 0
    → pool.pool_blocks < pool.max_blocks
    → batch_of pool ≤ (size_max - cacheline_size) / pool.total_size
    → alloc (some raw) pool size ≡ take_block (expand_at pool (batch_of pool) raw)
unfolding alloc refill expand_at
alloc-refill pool size raw fits empty more h =
    let n = batch_of pool in
    let some_new : 0 < n = omega (arith, more) in
    let none_free : (pool.free_list == 0) ≡ true = (==_iff pool.free_list 0).1 empty in
    let given : (raw + cacheline_size == 0) ≡ false = ground arith in
    rw
      (
        le→ltb pool.block_size size fits,
        none_free,
        lt→ltb pool.pool_blocks pool.max_blocks more,
        expand_pool_batch-some pool n raw some_new h,
        given,
      )
      refl

-- In a well-formed pool with no free block and below its limit, when a slab of the size asked for
-- can be had that overlaps no other slab of the pool: an allocation of a size that fits grows the
-- pool by 32 blocks, or by what is left to the limit, returns the payload of the first of them,
-- leaves the others as the free list, and keeps the pool well formed.
pub alloc-grown :
    (pool : Pool) (size raw : ℕ) (used : List ℕ)
    → IsValid pool [] used
    → size ≤ pool.block_size
    → pool.pool_blocks < pool.max_blocks
    → batch_of pool ≤ (size_max - cacheline_size) / pool.total_size
    → AllApart pool.total_size raw
        (raw + cacheline_size + batch_of pool * pool.total_size)
        pool.slab_list
    → let first = raw + cacheline_size in
      ((alloc (some raw) pool size).1 ≡ first + cacheline_size)
      × IsValid
          (alloc (some raw) pool size).0
          (blocks_from pool.total_size (batch_of pool - 1) (first + pool.total_size))
          (first ∷ used)
unfolding blocks_from expand_at take_block
alloc-grown pool size raw used v fits more h away =
    let n = batch_of pool in
    let t = pool.total_size in
    let first = raw + cacheline_size in
    let some_new : 0 < n = omega (arith, more) in
    let one_more : n ≡ suc (n - 1) = omega (arith, some_new) in
    let big = expand_at-IsValid pool used n raw v some_new (omega (arith, more)) away in
    let split : IsValid (expand_at pool n raw) (first ∷ blocks_from t (n - 1) (first + t)) used =
      subst (λ m. IsValid (expand_at pool n raw) (blocks_from t m first) used) one_more big in
    subst
      (λ (r : Pool × ℕ).
        (r.1 ≡ first + cacheline_size)
        × IsValid r.0 (blocks_from t (n - 1) (first + t)) (first ∷ used))
      (sym (alloc-refill pool size raw fits v.chain more h))
      (refl, take_block-IsValid (expand_at pool n raw) first _ used split)

empty_pool-IsValid :
    (mem : Memory) (block_size max_blocks : ℕ)
    → block_size + 127 < 2 ^ 64
    → IsValid (empty_pool mem block_size max_blocks) [] []
unfolding empty_pool
empty_pool-IsValid mem block_size max_blocks small = record {
  chain = refl;
  in_use = tt;
  apart = tt;
  owned = tt;
  free_count = refl;
  blocks = refl;
  balance = refl;
  bounded = omega arith;
  stride = omega arith;
  cached = λ s x e. absurd (none-ne-some s e);
}

expand_pool_batch-IsValid :
    (slab : Option ℕ) (pool : Pool) (n : ℕ)
    → IsValid pool [] []
    → pool.slab_list ≡ []
    → pool.pool_blocks + n ≤ pool.max_blocks
    → (avail : List ℕ) × IsValid (expand_pool_batch slab pool n).0 avail []
      × (length avail ≡ (expand_pool_batch slab pool n).1)
      × (length avail ≤ n)
      × ((expand_pool_batch slab pool n).0.max_blocks ≡ pool.max_blocks)
unfolding expand_pool_batch expand_at
expand_pool_batch-IsValid slab pool n v no_slab room = elim (Bool-cases (n == 0)) [
  | inl zero_new ↦ rw zero_new ([], v, refl, omega arith, refl)
  | inr some_new ↦ elim (Bool-cases (ltb ((size_max - cacheline_size) / pool.total_size) n)) [
    | inl over ↦ rw (some_new, over) ([], v, refl, omega arith, refl)
    | inr fits ↦ elim (Option-cases slab) [
      | inl failed ↦ rw (some_new, fits, failed) ([], v, refl, omega arith, refl)
      | inr (raw, given) ↦
          let away : AllApart pool.total_size raw (raw + cacheline_size + n * pool.total_size)
              pool.slab_list =
            subst (AllApart pool.total_size raw (raw + cacheline_size + n * pool.total_size))
              (sym no_slab) tt in
          rw (some_new, fits, given)
            (
              blocks_from pool.total_size n (raw + cacheline_size),
              expand_at-IsValid pool [] n raw v (ground (arith, some_new)) room away,
              length-blocks_from pool.total_size n (raw + cacheline_size),
              omega (arith, length-blocks_from pool.total_size n (raw + cacheline_size)),
              refl,
            )
    ]
  ]
]

-- For a block size below 2^64 - 127, `mempool_create` gives a well-formed pool, in which no block is handed out and the number of
-- free blocks is the number asked for, or the limit when that is less.
pub create-IsValid :
    (memory : Bool) (slab : Option ℕ) (mem : Memory) (block_size initial_blocks max_blocks : ℕ)
    (pool : Pool)
    → block_size + 127 < 2 ^ 64
    → create memory slab mem block_size initial_blocks max_blocks ≡ some pool
    → (avail : List ℕ) × IsValid pool avail [] × (length avail ≡ min initial_blocks pool.max_blocks)
unfolding create empty_pool
create-IsValid memory slab mem block_size initial_blocks max_blocks pool small e =
    let start = empty_pool mem block_size max_blocks in
    let v = empty_pool-IsValid mem block_size max_blocks small in
    let want = min initial_blocks start.max_blocks in
    let r = expand_pool_batch slab start want in
    let Claim = λ (p : Pool).
      (avail : List ℕ) × IsValid p avail [] × (length avail ≡ min initial_blocks p.max_blocks) in
    elim (Bool-cases memory) [
      | inr no_memory ↦ absurd (none-ne-some pool (rw no_memory at e))
      | inl got_memory ↦ elim (Bool-cases (initial_blocks == 0)) [
        | inl zero_blocks ↦
            subst Claim (some_inj.0 (rw (got_memory, zero_blocks) at e)) ([], v, ground arith)
        | inr some_blocks ↦ elim (Bool-cases (ltb r.1 want)) [
          | inl failed ↦ absurd (none-ne-some pool (rw (got_memory, some_blocks, failed) at e))
          | inr reserved ↦
              let (avail, w, size, most, limit) =
                expand_pool_batch-IsValid slab start want v refl (omega arith) in
              let all : length avail ≡ want = ground (arith, reserved, size, most) in
              subst Claim (some_inj.0 (rw (got_memory, some_blocks, reserved) at e))
                (avail, w, all ∙ ap (min initial_blocks) (sym limit))
        ]
      ]
    ]
