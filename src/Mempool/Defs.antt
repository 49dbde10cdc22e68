-- ===== src/Mempool/Defs.antt =====
-- src/mempool.c. Addresses are numbers, NULL is 0, and the block headers are a memory from
-- addresses. `posix_memalign` and `calloc` are arguments: an address, or `none` on failure.
use tproxy2ss.Base.{
  ℕ, zero, suc, ◌+◌, ◌-◌, ◌*◌, ◌/◌, ◌%◌, ◌^◌, min, Bool, false, ◌&&◌, not, Option, none, some, List,
  [], ◌∷◌, ltb, leb, ◌==◌, if◌then◌else◌,
}

abbrev pub size_max : ℕ
size_max = 2 ^ 64 - 1

-- `MEMPOOL_MAGIC_POOL`, `MEMPOOL_MAGIC_FREE`, `CACHELINE_SIZE`, `EXPAND_BATCH_SIZE`
abbrev pub magic_pool : ℕ
magic_pool = 0xdeadbeef

abbrev pub magic_free : ℕ
magic_free = 0

abbrev pub cacheline_size : ℕ
cacheline_size = 64

abbrev pub expand_batch_size : ℕ
expand_batch_size = 32

-- `mempool_slab_t`, at the address `base`
pub record Slab : Type 0 where
  pub base : ℕ
  pub block_count : ℕ

-- `block_header_t`
pub record Header : Type 0 where
  pub magic : ℕ
  pub next_free : ℕ

abbrev pub Memory : Type 0
Memory = ℕ → Header

unfoldable pub store : Memory → ℕ → Header → Memory
store mem a h x = if x == a then h else mem x

-- `struct memory_pool`, with the slab list in its order
pub record Pool : Type 0 where
  pub mem : Memory
  pub slab_list : List Slab
  pub last_freed_slab : Option Slab
  pub free_list : ℕ
  pub block_size : ℕ
  pub total_size : ℕ
  pub pool_blocks : ℕ
  pub max_blocks : ℕ
  pub free_count : ℕ
  pub pool_allocs : ℕ
  pub pool_frees : ℕ
  pub warn_counter : ℕ

-- `mempool_physical_size`; `sizeof(memory_pool_t)` is 88 on a 64-bit machine.
unfoldable pub slabs_size : List Slab → ℕ → ℕ
slabs_size [] total_size = 0
slabs_size (s ∷ l) total_size =
    cacheline_size + s.block_count * total_size + slabs_size l total_size

unfoldable pub physical_size : Pool → ℕ
physical_size pool = 88 + slabs_size pool.slab_list pool.total_size

-- The loop that threads the new blocks; the last one goes on to the old free list.
unfoldable pub thread_blocks : ℕ → ℕ → ℕ → ℕ → Memory → Memory
thread_blocks stride tail zero curr mem = mem
thread_blocks stride tail (suc n) curr mem =
    let next_block = curr + stride in
    let link = if n == 0 then tail else next_block in
    thread_blocks stride tail n next_block
      (store mem curr (record { magic = magic_free; next_free = link }))

-- `expand_pool_batch`: the pool, and the number of blocks that were added.
unfoldable pub expand_at : Pool → ℕ → ℕ → Pool
expand_at pool batch_count slab_raw =
    let first_block = slab_raw + cacheline_size in
    record pool {
      mem = thread_blocks pool.total_size pool.free_list batch_count first_block pool.mem;
      slab_list = record { base = slab_raw; block_count = batch_count } ∷ pool.slab_list;
      free_list = first_block;
      pool_blocks = pool.pool_blocks + batch_count;
      free_count = pool.free_count + batch_count;
    }

unfoldable pub expand_pool_batch : Option ℕ → Pool → ℕ → Pool × ℕ
expand_pool_batch slab pool batch_count =
    if batch_count == 0
    then (pool, 0)
    else if ltb ((size_max - cacheline_size) / pool.total_size) batch_count
    then (pool, 0)
    else elim slab [
      | none ↦ (pool, 0)
      | some slab_raw ↦ (expand_at pool batch_count slab_raw, batch_count)
    ]

-- `(base_total + 63) & ~63`; both sums are of `size_t` and wrap. From a block size of 2^64 - 127 on the
-- stride is 0, by which `expand_pool_batch` divides in the code, or 64.
abbrev pub stride_of : ℕ → ℕ
stride_of block_size =
    ((cacheline_size + block_size) % 2 ^ 64 + (cacheline_size - 1))
    % 2 ^ 64
    / cacheline_size
    * cacheline_size

unfoldable pub empty_pool : Memory → ℕ → ℕ → Pool
empty_pool mem block_size max_blocks = record {
  mem = mem;
  slab_list = [];
  last_freed_slab = none;
  free_list = 0;
  block_size = block_size;
  total_size = stride_of block_size;
  pool_blocks = 0;
  max_blocks = if max_blocks == 0 then size_max else max_blocks;
  free_count = 0;
  pool_allocs = 0;
  pool_frees = 0;
  warn_counter = 0;
}

-- `mempool_create`. `memory` is the success of `calloc`, `slab` the answer of `posix_memalign`.
unfoldable pub create : Bool → Option ℕ → Memory → ℕ → ℕ → ℕ → Option Pool
create memory slab mem block_size initial_blocks max_blocks =
    let pool = empty_pool mem block_size max_blocks in
    let want = min initial_blocks pool.max_blocks in
    let (grown, got) = expand_pool_batch slab pool want in
    if not memory
    then none
    else if initial_blocks == 0
    then some pool
    else if ltb got want
    then none
    else some grown

-- The head of the free list is handed out; its payload begins behind the header.
unfoldable pub take_block : Pool → Pool × ℕ
take_block pool =
    let header = pool.free_list in
    (
      record pool {
        mem = store pool.mem header (record { magic = magic_pool; next_free = 0 });
        free_list = (pool.mem header).next_free;
        free_count = pool.free_count - 1;
        pool_allocs = pool.pool_allocs + 1;
      },
      header + cacheline_size,
    )

-- An empty free list grows by a batch, up to the limit.
unfoldable pub refill : Option ℕ → Pool → Pool
refill slab pool =
    if pool.free_list == 0 && ltb pool.pool_blocks pool.max_blocks
    then (expand_pool_batch slab pool
        (min expand_batch_size (pool.max_blocks - pool.pool_blocks))).0
    else pool

-- `mempool_alloc_sized`: the pool and the payload's address, or NULL.
unfoldable pub alloc : Option ℕ → Pool → ℕ → Pool × ℕ
alloc slab pool size =
    if ltb pool.block_size size
    then (pool, 0)
    else let grown = refill slab pool in
      if not (grown.free_list == 0)
      then take_block grown
      else (record grown { warn_counter = grown.warn_counter + 1 }, 0)

-- `mempool_calloc_sized`: the same, and the number of bytes behind the address that are set to 0.
unfoldable pub calloc : Option ℕ → Pool → ℕ → Pool × ℕ × ℕ
calloc slab pool size =
    let (after, ptr) = alloc slab pool size in
    if ptr == 0 then (after, ptr, 0) else (after, ptr, pool.block_size)

-- `verify_boundary` at a slab that is there
unfoldable pub verify_boundary : ℕ → Slab → ℕ → Bool
verify_boundary total_size slab addr =
    let slab_start = slab.base + cacheline_size in
    let slab_end = slab_start + slab.block_count * total_size in
    if leb slab_start addr && ltb addr slab_end
    then (addr - slab_start) % total_size == 0
    else false

-- The loop over all slabs
unfoldable pub find_slab : ℕ → List Slab → ℕ → Option Slab
find_slab total_size [] addr = none
find_slab total_size (s ∷ l) addr =
    if verify_boundary total_size s addr then some s else find_slab total_size l addr

unfoldable pub verify_cached : ℕ → Option Slab → ℕ → Bool
verify_cached total_size none addr = false
verify_cached total_size (some s) addr = verify_boundary total_size s addr

-- A header that belongs to the pool: its magic number decides.
unfoldable pub free_header : Pool → ℕ → Pool
free_header pool header =
    if (pool.mem header).magic == magic_free
    then pool
    else if not ((pool.mem header).magic == magic_pool)
    then pool
    else record pool {
      mem = store pool.mem header (record { magic = magic_free; next_free = pool.free_list });
      free_list = header;
      free_count = pool.free_count + 1;
      pool_frees = pool.pool_frees + 1;
    }

-- `internal_free`, that is `mempool_free_sized`
unfoldable pub free : Pool → ℕ → Pool
free pool ptr =
    let header = (ptr + 2 ^ 64 - cacheline_size) % 2 ^ 64 in
    if ptr == 0
    then pool
    else if verify_cached pool.total_size pool.last_freed_slab header
    then free_header pool header
    else elim (find_slab pool.total_size pool.slab_list header) [
      | none ↦ pool
      | some s ↦ free_header (record pool { last_freed_slab = some s }) header
    ]

-- `mempool_destroy`: the number of leaked blocks that it returns.
unfoldable pub destroy : Pool → ℕ
destroy pool =
    if leb pool.free_count pool.pool_blocks then pool.pool_blocks - pool.free_count else 0
