-- ===== src/Mempool/Run.antt =====
-- src/mempool.c: all sequences of allocations and frees of a pool that `mempool_create` made.
use tproxy2ss.Base.{
  ℕ, ◌+◌, ◌-◌, ◌^◌, ◌≤◌, ◌<◌, ◌≡◌, arith, Bool, false, Option, some, List, [], ◌∷◌, ◌++◌, length,
  ◌==◌, if◌then◌else◌,
}
use tproxy2ss.Mempool.Defs.{cacheline_size, Memory, Pool, create, alloc, free, destroy}
use tproxy2ss.Mempool.Chain.{Distinct, IsValid, NotIn-append}
use tproxy2ss.Mempool.Free.{free-IsValid}
use tproxy2ss.Mempool.Alloc.{destroy-leaks}
use tproxy2ss.Mempool.Grow.{create-IsValid}
use tproxy2ss.Mempool.Outcome.{IsFresh, Outcome, refused, taken, grown, alloc-Outcome}

-- The headers of the blocks that callers hold, behind an allocation that returned `ptr`.
unfoldable pub held_after : ℕ → List ℕ → List ℕ
held_after ptr held = if ptr == 0 then held else (ptr - cacheline_size) ∷ held

-- The pools that can come about, each with the headers of the blocks that callers hold. A slab
-- for the growth can be had at any time or not; a block is given back by its holder.
pub data Run : Pool → List ℕ → Type 0 where
  created :
      (memory : Bool) (slab : Option ℕ) (mem : Memory) (block_size initial_blocks max_blocks : ℕ)
      (pool : Pool)
      → block_size + 127 < 2 ^ 64
      → create memory slab mem block_size initial_blocks max_blocks ≡ some pool
      → Run pool []
  allocated :
      {pool : Pool} {held : List ℕ} (slab : Option ℕ) (size : ℕ)
      → Run pool held
      → IsFresh slab pool
      → Run (alloc slab pool size).0 (held_after (alloc slab pool size).1 held)
  freed :
      {pool : Pool} (l r : List ℕ) (x : ℕ)
      → Run pool (l ++ x ∷ r)
      → x + cacheline_size < 2 ^ 64
      → Run (free pool (x + cacheline_size)) (l ++ r)

-- The block of an allocation that is not NULL is held.
held_new :
    (x : ℕ) (rest used : List ℕ) (r : Pool × ℕ)
    → r.1 ≡ x + cacheline_size
    → IsValid r.0 rest (x ∷ used)
    → (rest : List ℕ) × IsValid r.0 rest (held_after r.1 used)
unfolding held_after
held_new x rest used r at v =
    let back : x + cacheline_size - cacheline_size ≡ x = omega arith in
    let not_null : (x + cacheline_size == 0) ≡ false = ground arith in
    (rest, rw (at, not_null, back) v)

Outcome-IsValid :
    {slab : Option ℕ} {pool : Pool} {size : ℕ} (avail used : List ℕ) (r : Pool × ℕ)
    → Outcome slab pool size avail used r
    → (rest : List ℕ) × IsValid r.0 rest (held_after r.1 used)
unfolding held_after
Outcome-IsValid avail used r (refused why at v) = (avail, rw at v)
Outcome-IsValid avail used r (taken x rest fits from at v) = held_new x rest used r at v
Outcome-IsValid avail used r (grown x rest fits from below more at v) = held_new x rest used r at v

Run-IsValid :
    {pool : Pool} {held : List ℕ} → Run pool held → (avail : List ℕ) × IsValid pool avail held
Run-IsValid (created memory slab mem block_size initial_blocks max_blocks pool small e) =
    let (avail, v, _) =
      create-IsValid memory slab mem block_size initial_blocks max_blocks pool small e in
    (avail, v)
Run-IsValid (allocated {pool} {held} slab size run fresh) =
    let (avail, v) = Run-IsValid run in
    Outcome-IsValid avail held (alloc slab pool size)
      (alloc-Outcome slab pool size avail held v fresh)
Run-IsValid (freed {pool} l r x run h) =
    let (avail, v) = Run-IsValid run in (x ∷ avail, free-IsValid pool l r avail x v h)

Distinct-front : (l m : List ℕ) → Distinct (l ++ m) → Distinct l
Distinct-front [] m d = tt
Distinct-front (x ∷ l) m d = ((NotIn-append x l m d.0).0, Distinct-front l m d.1)

-- After any allocations and frees of a pool from `mempool_create` for a block size below
-- 2^64 - 127, where a slab for its growth, when one can be had, overlaps no other slab of the pool, and blocks are given back by their
-- holders, at addresses below 2^64: no block is in two hands, no more blocks are handed out than
-- the limit allows, and the leak count of `mempool_destroy` is the number of blocks that are held.
pub Run-leaks :
    {pool : Pool} {held : List ℕ}
    → Run pool held
    → Distinct held × (length held ≤ pool.max_blocks) × (destroy pool ≡ length held)
Run-leaks {pool} {held} run =
    let (avail, v) = Run-IsValid run in
    (
      Distinct-front held avail v.apart,
      omega (arith, v.blocks, v.bounded),
      destroy-leaks pool avail held v,
    )
