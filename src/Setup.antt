-- ===== src/Setup.antt =====
-- How a handler comes to be: caddyfile.go and `Provision` of forwardproxy.go.
pub mod Caddyfile
pub mod Provision
