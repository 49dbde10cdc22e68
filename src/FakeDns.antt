-- ===== src/FakeDns.antt =====
-- src/fakedns.c: the pool of fake addresses. Its child modules model the operations and prove
-- their properties; `Defs` holds the state that they share.
pub mod Defs
pub mod Lookup
pub mod Valid
pub mod Probe
pub mod Outcome
pub mod Keeps
pub mod Stable
pub mod Mapping
pub mod Reverse
pub mod Coherent
pub mod RoundTrip
pub mod Init
pub mod Name
pub mod Ptr
pub mod Query
pub mod File
pub mod Reload
pub mod Server
mod Tests
