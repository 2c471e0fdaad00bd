-- ===== src/Subscription.antt =====
-- pkg/subscription/subscription.go: documents of VPN tunnels, written and read.
pub mod Codec
pub mod Parse
pub mod Encode
pub mod Accepted
pub mod RoundTrip
