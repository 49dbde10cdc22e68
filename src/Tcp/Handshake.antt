-- ===== src/Tcp/Handshake.antt =====
-- src/tcp_proxy.c, the handshake of a session: from `tcp_handshake_send_request_header` to
-- `tcp_session_create`.
pub mod Dial
pub mod Defs
pub mod Servers
pub mod Valid
pub mod Tries
pub mod Choice
pub mod Retry
pub mod Begin
pub mod Begun
pub mod Run
mod Tests
