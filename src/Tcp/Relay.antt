-- ===== src/Tcp/Relay.antt =====
-- src/tcp_proxy.c, the relay of a session: from `tcp_buf_consume` to `tcp_relay_on_event`.
pub mod Defs
pub mod Event
pub mod Sound
pub mod Rounds
pub mod Opened
pub mod Chunks
pub mod Loop
pub mod Drains
pub mod Writes
pub mod Reads
pub mod Inputs
pub mod Run
pub mod Reached
pub mod Integrity
mod Tests
