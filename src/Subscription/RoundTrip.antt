-- ===== src/Subscription/RoundTrip.antt =====
-- Documents that EncodeSafeLinkJSON and EncodeClashYAML of pkg/subscription/subscription.go write, read
-- back by Parse.
pub mod Json
pub mod Address
pub mod Carried
pub mod Clash
