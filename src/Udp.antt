-- ===== src/Udp.antt =====
-- CONNECT-UDP: native_udp_*.go.
pub mod Metrics
pub mod Registration
pub mod Admission
