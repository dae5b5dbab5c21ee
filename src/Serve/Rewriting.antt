-- ===== src/Serve/Rewriting.antt =====
-- forwardproxy.go: how a request and a response are rewritten before they are passed on.
use forwardproxy.Base.{
  ℕ, ◌+◌, Bool, true, ◌&&◌, ◌||◌, List, [], ◌∷◌, ◌++◌, Option, none, some, Bytes, codes, equal,
  if◌then◌else◌, drop, is_nil,
}
use forwardproxy.Serve.Auth.{Codec}
use forwardproxy.Serve.Headers.{Header, add_value, del, remove_hop_by_hop, set_value}
use forwardproxy.Serve.Requests.{Handler, Request, Response}
use forwardproxy.Std.Net.{join_host_port}
use forwardproxy.Std.Strconv.{is_digit, itoa}
use forwardproxy.Std.Strings.{last_index_byte, to_lower}

abbrev pub or_else : Bytes → Bytes → Bytes
or_else [] s = s
or_else (c ∷ s) _ = c ∷ s

forwarded_for : Request → Bytes
forwarded_for r = codes "for=\"" ++ r.remote_addr ++ codes "\""

kept_forwarded : Header → Header
kept_forwarded [] = []
kept_forwarded ((k, vs) ∷ h) =
    let rest = kept_forwarded h in
    if equal (to_lower k) (codes "forwarded") || equal (to_lower k) (codes "x-forwarded-for")
    then (k, vs) ∷ rest
    else rest

-- The header that the context carries to the upstream's dialer.
unfoldable pub context_header : Handler → Request → Option Header
unfolding kept_forwarded forwarded_for
context_header h r =
    if h.hide_ip
    then none
    else some (add_value (codes "Forwarded") (forwarded_for r) (kept_forwarded r.header))

via : ℕ → ℕ → Bytes
via major minor = itoa major ++ codes "." ++ itoa minor ++ codes " caddy"

unfoldable pub with_forwarded : Handler → Request → Header → Header
unfolding forwarded_for
with_forwarded h r header =
    if h.hide_ip then header else add_value (codes "Forwarded") (forwarded_for r) header

unfoldable pub with_via : Handler → Header → Header
unfolding via
with_via h header = if h.hide_via then header else add_value (codes "Via") (via 1 1) header

-- What becomes of a request that is not CONNECT before it is sent on.
unfoldable pub rewritten : Handler → Request → Request
unfolding with_forwarded with_via
rewritten h r = record r {
  scheme = or_else r.scheme (codes "http");
  url_host = or_else r.url_host r.host;
  proto = codes "HTTP/1.1";
  proto_major = 1;
  proto_minor = 1;
  request_uri = [];
  header = with_via h (with_forwarded h r (remove_hop_by_hop r.header));
}

all_digits : Bytes → Bool
all_digits [] = true
all_digits (c ∷ s) = is_digit c && all_digits s

-- `url.Port()`
unfoldable pub url_port : Bytes → Bytes
unfolding all_digits
url_port host = elim (last_index_byte b':' host) [
  | none ↦ []
  | some i ↦ if all_digits (drop (i + 1) host) then drop (i + 1) host else []
]

with_credentials : Codec → Bytes → Header → Header
with_credentials codec [] header = header
with_credentials codec (c ∷ creds) header =
    set_value (codes "Proxy-Authorization") (codes "Basic " ++ codec.encode (c ∷ creds)) header

-- The request for the upstream proxy, with the upstream's credentials and a port.
unfoldable pub upstream_request : Codec → Bytes → Request → Request
unfolding with_credentials url_port
upstream_request codec creds r = record r {
  url_host =
      if is_nil (url_port r.url_host) then join_host_port r.url_host (codes "80") else r.url_host;
  header = with_credentials codec creds r.header;
}

unfoldable pub is_idempotent : Bytes → Bool
is_idempotent method =
    equal method (codes "GET")
    || equal method (codes "HEAD")
    || equal method (codes "OPTIONS")
    || equal method (codes "TRACE")

add_values : Bytes → List Bytes → Header → Header
add_values name [] w = w
add_values name (v ∷ vs) w = add_values name vs (add_value name v w)

add_header : Header → Header → Header
unfolding add_values
add_header [] w = w
add_header ((k, vs) ∷ header) w = add_header header (add_values k vs w)

-- The header that `forwardResponse` leaves in the writer.
unfoldable pub forward_header : Response → Header → Header
unfolding add_header via
forward_header response w =
    let w' =
      add_value (codes "Via") (via response.proto_major response.proto_minor)
        (del (codes "Server") w) in
    remove_hop_by_hop (add_header response.header w')
