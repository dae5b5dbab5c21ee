-- ===== src/Serve/Routing.antt =====
-- forwardproxy.go, `ServeHTTP`: who gets which answer.
pub mod Gate
pub mod Dials
use forwardproxy.Base.{
  ℕ, ◌+◌, Bool, true, false, not, ◌&&◌, ◌||◌, List, [], ◌∷◌, ◌++◌, Option, none, some, Bytes, codes,
  equal, ◌==◌, if◌then◌else◌, length, drop, is_nil,
}
use forwardproxy.Serve.Auth.{AuthError, Checked, Codec, accepts, rejects, panics, check_credentials}
use forwardproxy.Serve.Dialing.{
  Dialled, Raced, UpstreamDial, connected, dial_error, dial_context_check_acl,
}
use forwardproxy.Serve.Headers.{
  Header, Negotiated, unpadded, variant1, invalid_type, no_type, add_value, del, canonical_key,
  negotiate_naive_padding, remove_hop_by_hop, set_naive_padding_response_headers, set_value, values,
}
use forwardproxy.Serve.Requests.{
  Handler, Request, Response, Served, hidden_page, pac_file, passed_on, refuses, associates,
  hijacks, streams, replies, crashes, is_connect_udp_request, is_unsupported_extended_connect,
}
use forwardproxy.Serve.Rewriting.{
  context_header, forward_header, is_idempotent, or_else, rewritten, upstream_request,
}
use forwardproxy.Std.Net.{host_port, bad_address, split_host_port, join_host_port}
use forwardproxy.Std.Strconv.{is_digit, itoa}
use forwardproxy.Std.Strings.{last_index_byte, to_lower}

-- What a round trip gives: a response, or an error with the status of a `caddyhttp.HandlerError`.
pub data Exchange : Type 0 where
  answers : Response → Exchange
  broken : Option ℕ → Exchange

-- What the server, the network and the random source do in one call.
pub record Outside (C : Type 0) : Type 0 where
  pub codec : Codec
  pub hosts_match : Request → Bool
  -- `h.dialContext` and `h.dialTCPIncremental`, with the header that the context carries.
  pub dial_context : Option Header → Bytes → Bytes → UpstreamDial C
  pub race : Bytes → Bytes → Bytes → Raced C
  pub padding_extra : ℕ
  pub padding_bits : ℕ
  pub flush_fails : Bool
  pub hijack_fails : Bool
  pub client_flush_fails : Bool
  pub body_read_fails : Bool
  pub body_close_fails : Bool
  pub round_trip : Request → Exchange
  -- On the upstream's connection.
  pub write_fails : Request → Bool
  pub read_response : Request → Option Response

abbrev pub is_some {ℓ} : {A : Type ℓ} → Option A → Bool
is_some none = false
is_some (some a) = true

abbrev pub basic_realm : Bytes
basic_realm = codes "Basic realm=\"Caddy Secure Web Proxy\""

-- The host of `r.Host`, which may have no port.
unfoldable pub req_host : Request → Bytes
req_host r = elim (split_host_port r.host) [ host_port host _ ↦ host | bad_address _ ↦ r.host ]

unfoldable pub checked : Codec → Option (List Bytes) → Header → Checked
checked codec none h = accepts []
checked codec (some configured) h = check_credentials codec configured h

is_hidden_domain : Option Bytes → Bytes → Bool
is_hidden_domain none host = false
is_hidden_domain (some domain) host = not (is_nil domain) && equal host domain

abbrev pub is_connect : Request → Bool
is_connect r = equal r.method (codes "CONNECT")

-- `shouldServePACFile`
unfoldable pub should_serve_pac_file : Handler → Request → Bool
should_serve_pac_file h r = not (is_nil h.pac_path) && equal r.path h.pac_path

module _ {C : Type 0} (out : Outside C) (h : Handler) where
  -- The dial went well and the response's header has been flushed.
  unfoldable pub tunnel : Request → Header → Bool → C → Served C
  tunnel r w padded c =
      if out.flush_fails
      then refuses 500 w
      else if r.proto_major == 1
      then (if out.hijack_fails || out.client_flush_fails then refuses 500 w else hijacks c w)
      else streams c padded w

  unfoldable pub on_dial : Request → Header → Bool → Dialled C → Served C
  unfolding tunnel
  on_dial r w padded (dial_error status) = refuses status w
  on_dial r w padded (connected c) = tunnel r w padded c

  unfoldable pub connect_padded : Request → Header → Bool → Served C
  unfolding on_dial
  connect_padded r w padded =
      if is_connect_udp_request r
      then associates r w
      else if is_unsupported_extended_connect r
      then refuses 501 w
      else if (r.proto_major == 2 || r.proto_major == 3) && not (is_nil r.scheme && is_nil r.path)
      then refuses 400 w
      else on_dial r w padded (
          dial_context_check_acl (out.dial_context (context_header h r)) out.race h (codes "tcp")
            (or_else r.url_host r.host))

  padded_header : Request → Header → ℕ → Header
  padded_header r w padding_type =
      set_naive_padding_response_headers out.padding_extra out.padding_bits w r.header padding_type

  unfoldable pub on_negotiated : Request → Header → Negotiated → Served C
  unfolding connect_padded padded_header
  on_negotiated r w invalid_type = refuses 400 w
  on_negotiated r w no_type = refuses 400 w
  on_negotiated r w unpadded = connect_padded r (padded_header r w 0) false
  on_negotiated r w variant1 = connect_padded r (padded_header r w 1) true

  -- From the close of the request's body on.
  unfoldable pub finish : Header → Exchange → Served C
  finish w (answers response) =
      if out.body_close_fails then refuses 502 w else replies response (forward_header response w)
  finish w (broken none) = refuses 502 w
  finish w (broken (some status)) = if out.body_close_fails then refuses 502 w else refuses status w

  unfoldable pub on_upstream : Request → Header → Option C → Option Bool → Served C
  unfolding finish
  on_upstream r w conn (some _) = refuses 502 w
  on_upstream r w none none = crashes
  on_upstream r w (some c) none =
      if out.write_fails r then refuses 502 w else elim (out.read_response r) [
        | none ↦ refuses 502 w
        | some response ↦ finish w (answers response)
      ]

  through_upstream_proxy : Option Header → Request → Header → Served C
  unfolding on_upstream
  through_upstream_proxy context r w =
      let d = out.dial_context context (codes "tcp") r.url_host in on_upstream r w d.conn d.failure

  -- The end of `ServeHTTP`, for a request that is not CONNECT.
  unfoldable pub plain_request : Request → Header → Served C
  unfolding finish through_upstream_proxy is_idempotent
  plain_request r w = elim h.upstream [
    | none ↦
        if is_idempotent r.method && out.body_read_fails
        then refuses 400 w
        else finish w (out.round_trip (rewritten h r))
    | some creds ↦
        through_upstream_proxy (context_header h r)
          (upstream_request out.codec creds (rewritten h r)) w
  ]

  -- A request that the routing has let through.
  unfoldable pub admitted_request : Request → Header → Served C
  unfolding on_negotiated plain_request
  admitted_request r w =
      if not (r.proto_major == 1) && not (r.proto_major == 2) && not (r.proto_major == 3)
      then refuses 505 w
      else if is_connect r
      then on_negotiated r w (negotiate_naive_padding r.header)
      else plain_request r w

  hidden_header : Option AuthError → Header → Header
  hidden_header none w = set_value (codes "Content-Type") (codes "text/html") w
  hidden_header (some e) w =
      set_value (codes "Proxy-Authenticate") basic_realm
        (set_value (codes "Content-Type") (codes "text/html") w)

  refused_auth : Option Bytes → Request → Header → Served C
  refused_auth (some domain) r w = passed_on r
  refused_auth none r w = refuses 407 (set_value (codes "Proxy-Authenticate") basic_realm w)

  -- From the check of the credentials on.
  unfoldable pub routed : Request → Header → Option AuthError → Served C
  unfolding admitted_request hidden_header refused_auth is_hidden_domain
  routed r w auth =
      if is_hidden_domain h.probe_resistance (req_host r)
      then hidden_page auth (hidden_header auth w)
      else if out.hosts_match r
          && (not (is_connect r)
              || is_some auth && (not (is_connect_udp_request r) || is_some h.probe_resistance))
      then (if should_serve_pac_file h r then pac_file r.host else passed_on r)
      else elim auth [ some e ↦ refused_auth h.probe_resistance r w | none ↦ admitted_request r w ]

  unfoldable pub serve_checked : Request → Header → Checked → Served C
  unfolding routed
  serve_checked r w panics = crashes
  serve_checked r w (accepts user) = routed r w none
  serve_checked r w (rejects user e) = routed r w (some e)

  -- `ServeHTTP`
  unfoldable pub serve_http : Request → Header → Served C
  unfolding serve_checked
  serve_http r w = serve_checked r w (checked out.codec h.auth_credentials r.header)
