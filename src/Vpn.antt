-- ===== src/Vpn.antt =====
-- The VPN between client/internal/tunnel/vpn.go and server/internal/vpnserver.
pub mod Handshake
pub mod Runtime
pub mod Session
pub mod Client
pub mod Reconnect
