-- ===== src/Mempool/Tests.antt =====
-- The theorems on src/mempool.c at a pool of two blocks, one of them handed out.
use tproxy2ss.Base.{
  ◌+◌, ◌-◌, ◌%◌, ◌^◌, ◌≡◌, ◌≢◌, ◌≤◌, true, inr, refl, arith, none, some, [], ◌∷◌, ◌==◌,
  if◌then◌else◌,
}
use mathlib.Core.Option.{none-ne-some}
use tproxy2ss.Mempool.Defs.{
  magic_pool, magic_free, cacheline_size, Slab, Memory, Pool, verify_boundary, find_slab, alloc,
  free, create, empty_pool, expand_pool_batch, expand_at, thread_blocks, store, refill, take_block,
  destroy,
}
use tproxy2ss.Mempool.Outcome.{IsFresh, Outcome, alloc-Outcome}
use tproxy2ss.Mempool.Run.{Run, created, allocated, held_after, Run-leaks}
use tproxy2ss.Mempool.Chain.{Distinct, IsValid}
use tproxy2ss.Mempool.Free.{free-IsValid, free-ignored}

abbrev slab_at : Slab
slab_at = record { base = 4096; block_count = 2 }

-- The block at 4160 is in use, the one at 4288 is free.
headers : Memory
headers a = record { magic = if a == 4160 then magic_pool else magic_free; next_free = 0 }

abbrev half : Pool
half = record {
  mem = headers;
  slab_list = slab_at ∷ [];
  last_freed_slab = none;
  free_list = 4288;
  block_size = 64;
  total_size = 128;
  pool_blocks = 2;
  max_blocks = 2;
  free_count = 1;
  pool_allocs = 1;
  pool_frees = 0;
  warn_counter = 0;
}

owned_used : find_slab 128 (slab_at ∷ []) 4160 ≡ some slab_at
unfolding find_slab verify_boundary
owned_used = refl

owned_free : find_slab 128 (slab_at ∷ []) 4288 ≡ some slab_at
unfolding find_slab verify_boundary
owned_free = refl

half-IsValid : IsValid half (4288 ∷ []) (4160 ∷ [])
unfolding headers
half-IsValid = record {
  chain = (refl, omega arith, refl, refl);
  in_use = (refl, tt);
  apart = (((λ e. absurd (omega (arith, e))), tt), (tt, tt));
  owned = ((slab_at, owned_used), ((slab_at, owned_free), tt));
  free_count = refl;
  blocks = refl;
  balance = refl;
  bounded = omega arith;
  stride = omega arith;
  cached = λ s x e. absurd (none-ne-some s e);
}

abbrev full : Pool
full = record half { free_list = 0; pool_blocks = 1; max_blocks = 1; free_count = 0 }

full-IsValid : IsValid full [] (4160 ∷ [])
unfolding headers
full-IsValid = record {
  chain = refl;
  in_use = (refl, tt);
  apart = (tt, tt);
  owned = ((slab_at, owned_used), tt);
  free_count = refl;
  blocks = refl;
  balance = refl;
  bounded = omega arith;
  stride = omega arith;
  cached = λ s x e. absurd (none-ne-some s e);
}

free_already : (half.mem ((4352 + 2 ^ 64 - cacheline_size) % 2 ^ 64)).magic ≢ magic_pool
unfolding headers
free_already e = absurd (omega (arith, e))

free-IsValid_example : IsValid (free half (4160 + cacheline_size)) (4160 ∷ 4288 ∷ []) []
free-IsValid_example = free-IsValid half [] [] (4288 ∷ []) 4160 half-IsValid (omega arith)

free-ignored_example : record (free half 4352) { last_freed_slab = none } ≡ half
free-ignored_example = free-ignored half 4352 free_already

alloc-Outcome_example : Outcome (some 8192) full 60 [] (4160 ∷ []) (alloc (some 8192) full 60)
alloc-Outcome_example =
    alloc-Outcome (some 8192) full 60 [] (4160 ∷ []) full-IsValid (inr (omega arith), tt)

-- A pool of one block that may grow to two
abbrev small : Pool
small = expand_at (empty_pool headers 64 2) 1 4096

abbrev taken_once : Pool
taken_once = (alloc none small 60).0

abbrev taken_twice : Pool
taken_twice = (alloc (some 8192) taken_once 60).0

program : Unit {0}
unfolding headers create empty_pool expand_pool_batch expand_at thread_blocks store refill
    take_block alloc held_after
program = tt

made : create true (some 4096) headers 64 1 2 ≡ some small
unfolding program
made = refl

second_slab : IsFresh (some 8192) taken_once
unfolding program
second_slab = (inr (omega arith), tt)

run : Run taken_twice (8256 ∷ 4160 ∷ [])
unfolding program
run =
    allocated (some 8192) 60
      (allocated none 60 (created true (some 4096) headers 64 1 2 small (omega arith) made) tt)
      second_slab

Run-leaks_example :
    Distinct (8256 ∷ 4160 ∷ []) × (2 ≤ taken_twice.max_blocks) × (destroy taken_twice ≡ 2)
Run-leaks_example = Run-leaks run
