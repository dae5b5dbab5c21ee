-- ===== src/Masque.antt =====
-- native_udp_protocol.go and native_udp_association.go: the request for an association, its
-- datagrams, and its life.
pub mod Target
pub mod Datagrams
pub mod Serving
pub mod Stream
pub mod Running
pub mod Pumps
mod Tests
