-- ===== src/Serve/Tests.antt =====
-- Runs of the request handling.
use forwardproxy.Base.{
  ℕ, true, false, ◌||◌, [], ◌∷◌, none, some, Bytes, codes, ◌≡◌, ◌↔◌, refl, equal, if◌then◌else◌,
}
use forwardproxy.Policy.{prepare_target_policy, port_is_allowed, domain_policy}
use forwardproxy.Serve.Auth.Accepts.{is_accepted, is_configured, check_credentials-accepts_iff}
use forwardproxy.Serve.Auth.{Codec, check_credentials, find_credentials}
use forwardproxy.Serve.Dialing.{wins, dial_context_check_acl, dial_prepared, raced}
use forwardproxy.Serve.Headers.Hops.{names_key, trims_key, values-remove_hop_by_hop}
use forwardproxy.Serve.Headers.{
  Header, canonical_key, capitalise, all_token_bytes, get, values, hop_by_hop_headers,
  remove_hop_by_hop, negotiate_naive_padding,
}
use forwardproxy.Serve.Requests.{
  Handler, Request, is_connect_udp_request, is_unsupported_extended_connect,
}
use forwardproxy.Serve.Routing.Gate.{serve_http-proxied}
use forwardproxy.Serve.Routing.{
  Outside, answers, req_host, serve_http, routed, admitted_request, connect_padded, on_negotiated,
  on_dial, tunnel, serve_checked, checked, should_serve_pac_file,
}
use forwardproxy.Std.Net.{split_host_port}
use forwardproxy.Std.Strconv.{atoi, digits_value}
use forwardproxy.Std.Strings.{has_byte, index_byte, split, to_lower}

-- An encoding that changes nothing.
abbrev plain_codec : Codec
plain_codec = record { encode = λ s. s; decode = λ s. (s, none); valid_utf8 = λ s. true }

abbrev outside : Outside ℕ
outside = record {
  codec = plain_codec;
  hosts_match = λ r. false;
  dial_context = λ h n a. record { conn = none; failure = none; context_error = none };
  race = λ n host port. wins 7;
  padding_extra = 0;
  padding_bits = 0;
  flush_fails = false;
  hijack_fails = false;
  client_flush_fails = false;
  body_read_fails = false;
  body_close_fails = false;
  round_trip =
      λ r. answers (record { status = 200; proto_major = 1; proto_minor = 1; header = [] });
  write_fails = λ r. false;
  read_response = λ r. none;
}

abbrev handler : Handler
handler = record {
  pac_path = [];
  hide_ip = true;
  hide_via = true;
  probe_resistance = some (codes "secret.localhost");
  auth_credentials = some (codes "me:pw" ∷ []);
  rules = record { acl_rules = []; allowed_ports = [] };
  upstream = none;
}

abbrev connect_with : Bytes → Request
connect_with authorization = record {
  method = codes "CONNECT";
  proto = codes "HTTP/1.1";
  proto_major = 1;
  proto_minor = 1;
  host = codes "good.com:443";
  scheme = [];
  url_host = codes "good.com:443";
  path = [];
  header = (codes "Proxy-Authorization", authorization ∷ []) ∷ [];
  remote_addr = [];
  request_uri = [];
}

abbrev good : Request
good = connect_with (codes "Basic me:pw")

abbrev bad : Request
bad = connect_with (codes "Basic me:no")

check_credentials-accepts_iff_example :
    (is_accepted plain_codec (
        check_credentials plain_codec
          (codes "me:pw" ∷ [])
          ((codes "Proxy-Authorization", codes "Basic me:pw" ∷ []) ∷ []))
      ≡ true)
    ↔ ((kind sent : Bytes) × (split b' ' (
            get
              (codes "Proxy-Authorization")
              ((codes "Proxy-Authorization", codes "Basic me:pw" ∷ []) ∷ []))
          ≡ kind ∷ sent ∷ [])
        × (to_lower kind ≡ codes "basic")
        × (is_configured plain_codec sent (codes "me:pw" ∷ []) ≡ true))
unfolding index_byte
check_credentials-accepts_iff_example =
    check_credentials-accepts_iff plain_codec (codes "me:pw" ∷ [])
      ((codes "Proxy-Authorization", codes "Basic me:pw" ∷ []) ∷ []) ((λ e. absurd (cc)), tt)

serve_http-proxied_example :
    is_accepted plain_codec (
      check_credentials plain_codec
        (codes "me:pw" ∷ [])
        ((codes "Proxy-Authorization", codes "Basic me:pw" ∷ []) ∷ []))
    ≡ true
unfolding serve_http serve_checked routed admitted_request on_negotiated connect_padded on_dial
    tunnel checked check_credentials find_credentials split get values equal canonical_key
    capitalise all_token_bytes has_byte to_lower index_byte req_host split_host_port
    negotiate_naive_padding is_connect_udp_request is_unsupported_extended_connect
    dial_context_check_acl prepare_target_policy port_is_allowed atoi digits_value domain_policy
    dial_prepared raced should_serve_pac_file
serve_http-proxied_example =
    serve_http-proxied outside handler good [] (codes "me:pw" ∷ []) refl refl

abbrev hops : Header
hops =
    (codes "Connection", codes "close, X-Own" ∷ [])
    ∷ (codes "X-Own", codes "1" ∷ [])
    ∷ (codes "Accept", codes "*/*" ∷ [])
    ∷ []

values-remove_hop_by_hop_example : values (codes "X-Own") (remove_hop_by_hop hops) ≡ (
    if names_key (codes "X-Own") hop_by_hop_headers
      || trims_key (codes "X-Own") (split b',' (get (codes "Connection") hops))
    then none
    else values (codes "X-Own") hops)
values-remove_hop_by_hop_example = values-remove_hop_by_hop (codes "X-Own") hops
