-- ===== src/Interop.antt =====
-- cmd/m4-rfc9298-client/main.go: the independent client of the server's CONNECT-UDP, and its runs.
pub mod Opening
pub mod Session
pub mod Served
pub mod Dns
pub mod Matrix
pub mod Limits
pub mod Padding
pub mod Modes
