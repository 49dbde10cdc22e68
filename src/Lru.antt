-- ===== src/Lru.antt =====
-- src/lrucache.h and src/udp_lrucache.c: bounded tables of UDP sessions over uthash.
pub mod Defs
pub mod Victim
pub mod Bound
pub mod Tables
pub mod Sweep
pub mod Listed
mod Tests
