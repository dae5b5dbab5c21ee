-- ===== src/Dial.antt =====
-- The TCP dial: connect_dial.go and connect_dial_incremental.go.
pub mod Interleave
pub mod Feed
pub mod Pool
pub mod Incremental
pub mod Addresses
