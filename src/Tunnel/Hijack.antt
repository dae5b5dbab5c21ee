-- ===== src/Tunnel/Hijack.antt =====
-- forwardproxy.go, `serveHijack`: the tunnel over the connection of an HTTP/1 client.
pub mod Carries
use forwardproxy.Base.{ℕ, Bool, true, false, [], ◌++◌, Bytes, if◌then◌else◌, is_nil, take}
use forwardproxy.Tunnel.Dual.{Dual, Way, dual_stream}

-- What the hijack and the writes give. `buffered` is what the server has read beyond the request;
-- `taken` is how much of that the target takes, since the write's own result is dropped.
pub record Hijack : Type 0 where
  pub hijack_fails : Bool
  pub buffered : Bytes
  pub taken : ℕ
  pub flush_fails : Bool

pub data Hijacked : Type 0 where
  -- A 500, and what the target has got by then.
  hijack_error : Bytes → Hijacked
  -- What the target got before the copies, and the two copies.
  tunnelled : Bytes → Dual → Hijacked

-- `serveHijack`
unfoldable pub serve_hijack : Hijack → Way → Way → Hijacked
unfolding dual_stream
serve_hijack x from_client from_target =
    let early = if is_nil x.buffered then [] else take x.taken x.buffered in
    if x.hijack_fails
    then hijack_error []
    else if x.flush_fails
    then hijack_error early
    else tunnelled early (dual_stream false from_client from_target)
