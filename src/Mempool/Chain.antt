-- ===== src/Mempool/Chain.antt =====
-- src/mempool.c: the invariant of the pool, with the free list as a segment of the memory.
use tproxy2ss.Base.{
  ℕ, ◌+◌, ◌≤◌, ◌<◌, ◌≡◌, ◌≢◌, sym, ap, ◌∙◌, arith, true, some, List, [], ◌∷◌, ◌++◌, length,
}
use mathlib.Core.Path.{subst}
use tproxy2ss.Mempool.Defs.{
  magic_pool, magic_free, Slab, Header, Memory, store, Pool, verify_boundary, find_slab,
}

-- `x` is not in the list.
abbrev pub NotIn : ℕ → List ℕ → Type 0
NotIn x [] = Unit
NotIn x (y ∷ l) = (x ≢ y) × NotIn x l

abbrev pub Distinct : List ℕ → Type 0
Distinct [] = Unit
Distinct (x ∷ l) = NotIn x l × Distinct l

-- The chain of `next_free` from `a` runs through exactly these headers, which are all free.
abbrev pub Chain : Memory → ℕ → List ℕ → Type 0
Chain mem a [] = a ≡ 0
Chain mem a (x ∷ l) =
    (a ≡ x) × (0 < x) × ((mem x).magic ≡ magic_free) × Chain mem (mem x).next_free l

-- All of these headers are handed out.
abbrev pub InUse : Memory → List ℕ → Type 0
InUse mem [] = Unit
InUse mem (x ∷ l) = ((mem x).magic ≡ magic_pool) × InUse mem l

-- A header at a block boundary of some slab
abbrev pub IsOwned : ℕ → List Slab → ℕ → Type 0
IsOwned total_size slabs x = (s : Slab) × (find_slab total_size slabs x ≡ some s)

abbrev pub AllOwned : ℕ → List Slab → List ℕ → Type 0
AllOwned total_size slabs [] = Unit
AllOwned total_size slabs (x ∷ l) = IsOwned total_size slabs x × AllOwned total_size slabs l

-- `avail` is the free list and `used` the blocks in the hands of callers.
pub record IsValid (pool : Pool) (avail used : List ℕ) : Type 0 where
  pub chain : Chain pool.mem pool.free_list avail
  pub in_use : InUse pool.mem used
  pub apart : Distinct (used ++ avail)
  pub owned : AllOwned pool.total_size pool.slab_list (used ++ avail)
  pub free_count : pool.free_count ≡ length avail
  pub blocks : pool.pool_blocks ≡ length used + length avail
  pub balance : pool.pool_allocs ≡ pool.pool_frees + length used
  pub bounded : pool.pool_blocks ≤ pool.max_blocks
  pub stride : 0 < pool.total_size
  pub cached :
      (s : Slab) (x : ℕ)
      → pool.last_freed_slab ≡ some s
      → verify_boundary pool.total_size s x ≡ true
      → IsOwned pool.total_size pool.slab_list x

pub store_self : (mem : Memory) (a : ℕ) (h : Header) → store mem a h a ≡ h
unfolding store
store_self mem a h = ground arith

pub store_other : (mem : Memory) (a x : ℕ) (h : Header) → x ≢ a → store mem a h x ≡ mem x
unfolding store
store_other mem a x h n = ground arith

-- A write elsewhere keeps the chain and the blocks in use.
pub Chain-store :
    (mem : Memory) (y : ℕ) (h : Header) (a : ℕ) (l : List ℕ)
    → NotIn y l
    → Chain mem a l
    → Chain (store mem y h) a l
Chain-store mem y h a [] n c = c
Chain-store mem y h a (x ∷ l) n c =
    let same = store_other mem y x h (λ e. n.0 (sym e)) in
    (
      c.0,
      c.1,
      ap (λ z. z.magic) same ∙ c.2,
      subst (λ (z : Header). Chain (store mem y h) z.next_free l) (sym same)
          (Chain-store mem y h (mem x).next_free l n.1 c.3),
    )

pub InUse-store :
    (mem : Memory) (y : ℕ) (h : Header) (l : List ℕ)
    → NotIn y l
    → InUse mem l
    → InUse (store mem y h) l
InUse-store mem y h [] n c = tt
InUse-store mem y h (x ∷ l) n c =
    let same = store_other mem y x h (λ e. n.0 (sym e)) in
    (ap (λ z. z.magic) same ∙ c.0, InUse-store mem y h l n.1 c.1)

pub NotIn-append : (x : ℕ) (l m : List ℕ) → NotIn x (l ++ m) → NotIn x l × NotIn x m
NotIn-append x [] m n = (tt, n)
NotIn-append x (y ∷ l) m n = let (a, b) = NotIn-append x l m n.1 in ((n.0, a), b)

pub NotIn-join : (x : ℕ) (l m : List ℕ) → NotIn x l → NotIn x m → NotIn x (l ++ m)
NotIn-join x [] m a b = b
NotIn-join x (y ∷ l) m a b = (a.0, NotIn-join x l m a.1 b)

-- Moving the head of the second list to the front of the first
pub Distinct-swap : (l m : List ℕ) (x : ℕ) → Distinct (l ++ x ∷ m) → Distinct (x ∷ (l ++ m))
Distinct-swap [] m x d = d
Distinct-swap (y ∷ l) m x d =
    let (nx, d') = Distinct-swap l m x d.1 in
    let (yl, yxm) = NotIn-append y l (x ∷ m) d.0 in
    (((λ e. yxm.0 (sym e)), nx), (NotIn-join y l m yl yxm.1, d'))

pub AllOwned-swap :
    (t : ℕ) (s : List Slab) (l m : List ℕ) (x : ℕ)
    → AllOwned t s (l ++ x ∷ m)
    → AllOwned t s (x ∷ (l ++ m))
AllOwned-swap t s [] m x o = o
AllOwned-swap t s (y ∷ l) m x o = let (ox, ol) = AllOwned-swap t s l m x o.1 in (ox, (o.0, ol))
