-- ===== src/Upstream.antt =====
-- httpclient/httpclient.go: the client of an upstream proxy.
pub mod Client
