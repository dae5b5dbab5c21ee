-- ===== src/Serve/Requests.antt =====
-- A request as `ServeHTTP` reads it, the handler's settings, and what a call ends in.
use forwardproxy.Base.{ℕ, Bool, ◌&&◌, not, List, Option, Bytes, codes, equal, ◌==◌}
use forwardproxy.Policy.{Rules}
use forwardproxy.Serve.Auth.{AuthError}
use forwardproxy.Serve.Headers.{Header}

pub record Request : Type 0 where
  pub method : Bytes
  pub proto : Bytes
  pub proto_major : ℕ
  pub proto_minor : ℕ
  pub host : Bytes
  pub scheme : Bytes
  pub url_host : Bytes
  pub path : Bytes
  pub header : Header
  pub remote_addr : Bytes
  pub request_uri : Bytes

-- `Handler`, as far as a request reads it: nil credentials are `none`, no probe resistance is
-- `none`, and `upstream` is the user part of the upstream's address.
pub record Handler : Type 0 where
  pub pac_path : Bytes
  pub hide_ip : Bool
  pub hide_via : Bool
  pub probe_resistance : Option Bytes
  pub auth_credentials : Option (List Bytes)
  pub rules : Rules
  pub upstream : Option Bytes

pub record Response : Type 0 where
  pub status : ℕ
  pub proto_major : ℕ
  pub proto_minor : ℕ
  pub header : Header

-- How a call of `ServeHTTP` ends. `C` is the type of the connections.
pub data Served (C : Type 0) : Type 0 where
  -- The hidden page, with the authentication error if there is one.
  hidden_page : Option AuthError → Header → Served C
  pac_file : Bytes → Served C
  -- `next.ServeHTTP(w, r)`
  passed_on : Request → Served C
  -- `caddyhttp.Error(status, …)`, with the response's header.
  refuses : ℕ → Header → Served C
  -- `h.serveConnectUDP(w, r)`
  associates : Request → Header → Served C
  -- A tunnel over the hijacked connection, or over the request's body with or without padding.
  hijacks : C → Header → Served C
  streams : C → Bool → Header → Served C
  -- The response passed back, with its header in the writer.
  replies : Response → Header → Served C
  crashes : Served C

-- `isConnectUDPRequest`
unfoldable pub is_connect_udp_request : Request → Bool
is_connect_udp_request r =
    equal r.method (codes "CONNECT") && r.proto_major == 3 && equal r.proto (codes "connect-udp")

-- `isUnsupportedExtendedConnect`
unfoldable pub is_unsupported_extended_connect : Request → Bool
is_unsupported_extended_connect r =
    equal r.method (codes "CONNECT")
    && r.proto_major == 3
    && not (equal r.proto (codes "HTTP/3.0"))
    && not (equal r.proto (codes "connect-udp"))
