-- ===== src/Interop/Opening.antt =====
-- cmd/m4-rfc9298-client/main.go, `dialClient` and `(*client).open`: the client's connection and the
-- request that it sends.
pub mod Parsing
use forwardproxy.Base.{
  ℕ, ◌+◌, ◌/◌, ◌%◌, Bool, true, false, not, ◌&&◌, ◌||◌, [], ◌∷◌, ◌++◌, Option, none, some, Bytes,
  codes, leb, ltb, ◌==◌, if◌then◌else◌, is_nil,
}
use forwardproxy.Masque.Target.{UrlRest, uri_prefix}
use forwardproxy.Serve.Headers.{Header, set_value}
use forwardproxy.Serve.Requests.{Request}
use forwardproxy.Std.Net.{HostPort, bad_address, host_port, split_host_port}
use forwardproxy.Std.Strconv.{itoa}
use forwardproxy.Std.Url.{path_escape}

-- What the client keeps of its connection.
pub record Client : Type 0 where
  pub proxy : Bytes
  pub auth : Bytes

-- The HTTP/3 settings that a server has sent.
pub record Settings : Type 0 where
  pub enable_datagrams : Bool
  pub enable_extended_connect : Bool

-- Why `dialClient` fails.
pub data DialFailure : Type 0 where
  bad_proxy no_connection no_settings unsupported_settings : DialFailure

pub data DialledClient : Type 0 where
  dialled : Client → DialledClient
  no_client : DialFailure → DialledClient

authorization : (Bytes → Bytes) → Bytes → Bytes → Bytes
authorization base64 username password =
    if not (is_nil username) || not (is_nil password)
    then codes "Basic " ++ base64 (username ++ b':' ∷ password)
    else []

supports : Option Settings → Bool
supports none = false
supports (some s) = s.enable_datagrams && s.enable_extended_connect

splits : HostPort → Bool
splits (host_port host port) = true
splits (bad_address e) = false

-- `dialClient`: whether the QUIC connection comes, and the settings, `none` at first where the context
-- ends before them, and then where they are nil.
unfoldable pub dial_client :
    (Bytes → Bytes) → Bool → Option (Option Settings) → Bytes → Bytes → Bytes → DialledClient
unfolding authorization supports splits
dial_client base64 connects none proxy username password =
    if not (splits (split_host_port proxy))
    then no_client bad_proxy
    else if not connects
    then no_client no_connection
    else no_client no_settings
dial_client base64 connects (some settings) proxy username password =
    if not (splits (split_host_port proxy))
    then no_client bad_proxy
    else if not connects
    then no_client no_connection
    else if not (supports settings)
    then no_client unsupported_settings
    else dialled (record { proxy = proxy; auth = authorization base64 username password })

unfoldable pub request_path : Bytes → ℕ → Bytes
unfolding path_escape
request_path host port = uri_prefix ++ (path_escape host ++ b'/' ∷ (itoa port ++ b'/' ∷ []))

abbrev pub open_header : Bytes → Header
open_header auth =
    let h = set_value (codes "Capsule-Protocol") (codes "?1") [] in
    if is_nil auth then h else set_value (codes "Proxy-Authorization") auth h

-- The request that `open` sends, as the server's library reads it: the address that `url.Parse` gives
-- keeps the authority and the escaped path.
unfoldable pub open_request : Client → Bytes → Bytes → ℕ → Request
open_request c remote_addr host port = record {
  method = codes "CONNECT";
  proto = codes "connect-udp";
  proto_major = 3;
  proto_minor = 0;
  host = c.proxy;
  scheme = codes "https";
  url_host = c.proxy;
  path = uri_prefix ++ host ++ b'/' ∷ itoa port ++ b'/' ∷ [];
  header = open_header c.auth;
  remote_addr = remote_addr;
  request_uri = request_path host port;
}

unfoldable pub open_url : Bytes → ℕ → UrlRest
unfolding request_path
open_url host port = record {
  has_user = false;
  raw_query = [];
  force_query = false;
  fragment = [];
  raw_path = [];
  escaped_path = request_path host port;
}
