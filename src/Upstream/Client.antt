-- ===== src/Upstream/Client.antt =====
-- httpclient/httpclient.go, `NewHTTPConnectDialer` and `DialContext`. Raw connections and HTTP/2
-- clients are numbered; what the network and the transports do is an argument.
pub mod Outcomes
pub mod Streams
pub mod Settled
mod Tests
use forwardproxy.Base.{
  ℕ, Bool, true, false, ◌&&◌, ◌||◌, List, [], ◌∷◌, ◌++◌, Option, none, some, Bytes, codes, equal,
  ◌==◌, if◌then◌else◌, is_nil,
}
use forwardproxy.Serve.Auth.{Codec}
use forwardproxy.Serve.Headers.{Header, set_value, values, without}
use forwardproxy.Serve.Rewriting.{url_port}
use forwardproxy.Std.Net.{join_host_port}

-- A parsed proxy address; the user is a name and a password, which is empty where there is none.
pub record ProxyUrl : Type 0 where
  pub scheme : Bytes
  pub host : Bytes
  pub user : Option (Bytes × Bytes)

-- `HTTPConnectDialer`. The cached client and its raw connection are set together.
pub record Dialer : Type 0 where
  pub proxy_url : ProxyUrl
  pub default_header : Header
  pub enable_h2_conn_reuse : Bool
  pub cached : Option (ℕ × ℕ)

pub data NewError : Type 0 where
  misparsed no_scheme : NewError
  unsupported : Bytes → NewError

pub data NewDialer : Type 0 where
  new : Dialer → NewDialer
  refused : NewError → NewDialer

with_port : Bytes → Bytes → Bytes
with_port port host = if is_nil (url_port host) then join_host_port host port else host

unfoldable pub user_header : Codec → Option (Bytes × Bytes) → Header
user_header codec none = []
user_header codec (some ([], password)) = []
user_header codec (some (c ∷ name, password)) =
    set_value (codes "Proxy-Authorization")
      (codes "Basic " ++ codec.encode ((c ∷ name) ++ b':' ∷ password)) []

unfoldable pub dialer_to : Codec → Bytes → ProxyUrl → NewDialer
unfolding with_port user_header
dialer_to codec port u = new (record {
  proxy_url = record u { host = with_port port u.host };
  default_header = user_header codec u.user;
  enable_h2_conn_reuse = true;
  cached = none;
})

-- `NewHTTPConnectDialer`, from the parsed address on.
unfoldable pub new_http_connect_dialer : Codec → ProxyUrl → NewDialer
unfolding dialer_to
new_http_connect_dialer codec u =
    if is_nil u.host
    then refused misparsed
    else if equal u.scheme (codes "http")
    then dialer_to codec (codes "80") u
    else if equal u.scheme (codes "https")
    then dialer_to codec (codes "443") u
    else if is_nil u.scheme
    then refused no_scheme
    else refused (unsupported u.scheme)

-- `for k, v := range header { req.Header[k] = v }`
unfoldable pub put_all : Header → Header → Header
put_all [] h = h
put_all ((k, vs) ∷ more) h = put_all more ((k, vs) ∷ without k h)

context_part : Option Header → Header → Header
unfolding put_all
context_part none h = h
context_part (some more) h = put_all more h

-- The header of the CONNECT request.
unfoldable pub request_header : Header → Option Header → Header
unfolding context_part put_all
request_header default context = context_part context (put_all default [])

pub data ClientError (E : Type 0) : Type 0 where
  given : E → ClientError E
  non_200 : ℕ → ClientError E
  scheme_unsupported protocol_unsupported : Bytes → ClientError E

-- What a request over a connection gives.
pub data Exchange (E : Type 0) : Type 0 where
  status : ℕ → Exchange E
  fails : E → Exchange E

-- A dial of the proxy, with the protocol that it has negotiated.
pub data RawDial (E : Type 0) : Type 0 where
  dialled : ℕ → Bytes → RawDial E
  dial_fails : E → RawDial E

pub record Network (E : Type 0) : Type 0 where
  -- `c.Dialer.DialContext`, which negotiates nothing.
  pub dial_proxy : ProxyUrl → RawDial E
  -- `c.DialTLS`, `none` where it is nil.
  pub dial_tls : Option (ProxyUrl → RawDial E)
  pub tls_dial : ProxyUrl → RawDial E
  pub handshake : ℕ → Option E
  pub can_take_new_request : ℕ → Bool
  pub round_trip : ℕ → Bytes → Header → Exchange E
  pub write_request : ℕ → Bytes → Header → Option E
  pub read_response : ℕ → Exchange E
  pub new_client_conn : ℕ → ℕ × Option E
  -- The error of a close, by the connection and those closed before.
  pub close : ℕ → List ℕ → Option E

pub data Conn : Type 0 where
  raw_conn h2_conn : ℕ → Conn

-- The two results of a Go call, with the dialer's cache and the connections closed so far.
pub record Out (E : Type 0) : Type 0 where
  pub conn : Option Conn
  pub err : Option (ClientError E)
  pub cached : Option (ℕ × ℕ)
  pub closed : List ℕ

abbrev pub lift : {E : Type 0} → Option E → Option (ClientError E)
lift none = none
lift (some e) = some (given e)

abbrev plain_dial : {E : Type 0} → RawDial E → RawDial E
plain_dial (dialled raw protocol) = dialled raw []
plain_dial (dial_fails e) = dial_fails e

-- The cache is read only where it is enabled.
abbrev pub usable : Bool → Option (ℕ × ℕ) → Option (ℕ × ℕ)
usable true cached = cached
usable false cached = none

module _ {E : Type 0} (net : Network E) where
  -- `err = rawConn.Close(); return nil, err`
  unfoldable pub close_and_return : ℕ → Option (ℕ × ℕ) → List ℕ → Out E
  close_and_return raw cached closed = record {
    conn = none;
    err = lift (net.close raw closed);
    cached = cached;
    closed = raw ∷ closed;
  }

  refuse : ClientError E → ℕ → Option (ℕ × ℕ) → List ℕ → Out E
  refuse e raw cached closed = record {
    conn = none;
    err = some e;
    cached = cached;
    closed = raw ∷ closed;
  }

  answered : Conn → ℕ → Option (ℕ × ℕ) → List ℕ → Exchange E → Out E
  unfolding close_and_return refuse
  answered c raw cached closed (fails e) = close_and_return raw cached closed
  answered c raw cached closed (status n) =
      if n == 200
      then record { conn = some c; err = none; cached = cached; closed = closed }
      else refuse (non_200 n) raw cached closed

  -- `connectHttp2`
  unfoldable pub connect_http2 : ℕ → ℕ → Bytes → Header → Option (ℕ × ℕ) → List ℕ → Out E
  unfolding answered
  connect_http2 raw client address header cached closed =
      answered (h2_conn raw) raw cached closed (net.round_trip client address header)

  written : ℕ → Option (ℕ × ℕ) → List ℕ → Option E → Out E
  unfolding answered close_and_return
  written raw cached closed (some e) = close_and_return raw cached closed
  written raw cached closed none = answered (raw_conn raw) raw cached closed (net.read_response raw)

  -- `connectHttp1`
  unfoldable pub connect_http1 : ℕ → Bytes → Header → Option (ℕ × ℕ) → List ℕ → Out E
  unfolding written
  connect_http1 raw address header cached closed =
      written raw cached closed (net.write_request raw address header)

  -- Behind `connectHttp2` on a new connection: an error closes it again, and a result with no error
  -- goes into the cache.
  cache_out : Bool → ℕ → ℕ → Out E → Option (ClientError E) → Out E
  unfolding close_and_return
  cache_out reuse raw client out (some e) = close_and_return raw out.cached out.closed
  cache_out reuse raw client out none =
      if reuse then record out { cached = some (raw, client) } else out

  on_h2 : Bool → ℕ → Bytes → Header → Option (ℕ × ℕ) → List ℕ → ℕ × Option E → Out E
  unfolding cache_out close_and_return
  on_h2 reuse raw address header cached closed (client, some e) = close_and_return raw cached closed
  on_h2 reuse raw address header cached closed (client, none) =
      let out = connect_http2 raw client address header cached closed in
      cache_out reuse raw client out out.err

  unfoldable pub on_raw : Bool → Bytes → Header → Option (ℕ × ℕ) → List ℕ → RawDial E → Out E
  unfolding on_h2 refuse
  on_raw reuse address header cached closed (dial_fails e) = record {
    conn = none;
    err = some (given e);
    cached = cached;
    closed = closed;
  }
  on_raw reuse address header cached closed (dialled raw protocol) =
      if is_nil protocol || equal protocol (codes "http/1.1")
      then connect_http1 raw address header cached closed
      else if equal protocol (codes "h2")
      then on_h2 reuse raw address header cached closed (net.new_client_conn raw)
      else refuse (protocol_unsupported protocol) raw cached closed

  -- The handshake behind `tls.Dial`: where it fails the connection is dropped as it is.
  on_handshake : ℕ → Bytes → Option E → RawDial E
  on_handshake raw protocol none = dialled raw protocol
  on_handshake raw protocol (some e) = dial_fails e

  handshaken : RawDial E → RawDial E
  unfolding on_handshake
  handshaken (dial_fails e) = dial_fails e
  handshaken (dialled raw protocol) = on_handshake raw protocol (net.handshake raw)

  -- The branch of the scheme `https`.
  dial_https : Option (ProxyUrl → RawDial E) → ProxyUrl → RawDial E
  unfolding handshaken
  dial_https (some dial) u = dial u
  dial_https none u = handshaken (net.tls_dial u)

  -- The switch on the scheme, `none` for one that is not supported: a plain dial negotiates nothing.
  unfoldable pub dial_by_scheme : ProxyUrl → Option (RawDial E)
  unfolding dial_https
  dial_by_scheme u =
      if equal u.scheme (codes "http")
      then some (plain_dial (net.dial_proxy u))
      else if equal u.scheme (codes "https")
      then some (dial_https net.dial_tls u)
      else none

  on_scheme : Dialer → Bytes → Header → List ℕ → Option (RawDial E) → Out E
  unfolding on_raw
  on_scheme d address header closed none = record {
    conn = none;
    err = some (scheme_unsupported d.proxy_url.scheme);
    cached = d.cached;
    closed = closed;
  }
  on_scheme d address header closed (some dial) =
      on_raw d.enable_h2_conn_reuse address header d.cached closed dial

  -- From the switch on the scheme on.
  unfoldable pub dial_anew : Dialer → Bytes → Header → List ℕ → Out E
  unfolding on_scheme
  dial_anew d address header closed = on_scheme d address header closed (dial_by_scheme d.proxy_url)

  -- The cached client's result is returned if it has no error, which a nil connection may be.
  retry : Dialer → Bytes → Header → Out E → Option (ClientError E) → Out E
  retry d address header out none = out
  retry d address header out (some e) = dial_anew d address header out.closed

  on_cached : Dialer → Bytes → Header → Option (ℕ × ℕ) → Out E
  unfolding retry
  on_cached d address header none = dial_anew d address header []
  on_cached d address header (some (raw, client)) =
      let out = connect_http2 raw client address header d.cached [] in
      if net.can_take_new_request client
      then retry d address header out out.err
      else dial_anew d address header []

  -- `DialContext`, for the header that the context carries.
  unfoldable pub dial_context : Dialer → Option Header → Bytes → Out E
  unfolding on_cached
  dial_context d context address =
      on_cached d address (request_header d.default_header context)
        (usable d.enable_h2_conn_reuse d.cached)
