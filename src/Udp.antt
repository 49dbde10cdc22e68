-- ===== src/Udp.antt =====
-- src/udp_proxy.c: the UDP proxy of one thread.
pub mod Endpoint
pub mod Held
pub mod Ingress
pub mod Flush
pub mod Replies
pub mod Listed
pub mod Session
pub mod Proxy
pub mod Collect
