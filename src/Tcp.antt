-- ===== src/Tcp.antt =====
-- src/tcp_proxy.c: one TCP session, first its relay.
pub mod Client
pub mod Relay
pub mod Handshake
pub mod Target
