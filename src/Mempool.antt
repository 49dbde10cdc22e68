-- ===== src/Mempool.antt =====
-- src/mempool.c: a pool of equal blocks in slabs, with a free list through the block headers.
pub mod Defs
pub mod Chain
pub mod Free
pub mod Alloc
pub mod Blocks
pub mod Grow
pub mod Outcome
pub mod Run
mod Tests
