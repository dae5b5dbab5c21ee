-- ===== src/Serve.antt =====
-- forwardproxy.go: the handling of a request.
pub mod Headers
pub mod Auth
pub mod Requests
pub mod Dialing
pub mod Rewriting
pub mod Routing
pub mod Racing
mod Tests
