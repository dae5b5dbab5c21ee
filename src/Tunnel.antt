-- ===== src/Tunnel.antt =====
-- The tunnel of an established CONNECT: forwardproxy.go, from `serveHijack` to `flushingIoCopy`.
pub mod Reader
pub mod Copy
pub mod Dual
pub mod Hijack
