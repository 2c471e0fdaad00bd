-- ===== src/Tests.antt =====
-- The theorems at concrete inputs, and runs of the definitions.
mod Configs
mod Frames
mod Subscriptions
mod Stores
mod Vpns
mod Managers
mod Proxies
mod Documents
mod Runs
mod Reconnects
mod Imports
