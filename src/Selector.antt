-- ===== src/Selector.antt =====
-- src/server_selector.c: health, scores and the best server of one protocol.
pub mod Score
pub mod Defs
pub mod Candidate
pub mod Best
pub mod Reach
pub mod Stale
mod Tests
