-- ===== src/Wire.antt =====
-- pkg/protocol/frame.go and the two packet loops of server/internal/vpnserver/server.go: a frame is
-- the length of the packet in four bytes, the packet, and with padding zeros up to a multiple of 128.
pub mod Header
pub mod Frame
pub mod RoundTrip
pub mod Overrun
pub mod Loops
