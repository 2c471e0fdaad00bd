-- ===== src/Net.antt =====
-- The part of Go's package net/netip that the sources call.
pub mod Prefix
pub mod HostPort
