-- ===== src/Config.antt =====
-- pkg/config: the configuration structures that the server and the clients share.
pub mod Tunnel
pub mod Rules
pub mod Server
