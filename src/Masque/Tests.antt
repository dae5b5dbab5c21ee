-- ===== src/Masque/Tests.antt =====
-- Runs of the parser and of the datagrams.
use forwardproxy.Base.{true, false, [], ◌∷◌, ◌++◌, none, some, codes, ◌≡◌, refl, equal}
use forwardproxy.Masque.Datagrams.{Varint}
use forwardproxy.Base.{pos}
use forwardproxy.Base.Dict.{lookup}
use forwardproxy.Masque.Pumps.Relay.{arrive, payloads_sent, pump_h3_to_udp-pump_udp_to_h3}
use forwardproxy.Masque.Pumps.{
  Counters, Read, payload, sent, too_large, pump_h3_to_udp, pump_udp_to_h3,
}
use forwardproxy.Base.{arith, List, ℕ}
use forwardproxy.Masque.Serving.Places.{SamePlaces, serve_connect_udp-SamePlaces}
use forwardproxy.Masque.Serving.{Outside, deadline_exceeded, serve_connect_udp}
use forwardproxy.Udp.Admission.{Limiter}
use forwardproxy.Masque.Target.Domains.{IsTarget, parse_connect_udp_target-IsTarget}
use forwardproxy.Masque.Target.{
  Target, UrlRest, parse_connect_udp_target, all_ascii_digits, all_labels, canonical_domain,
  is_label, is_well_formed,
}
use forwardproxy.Serve.Headers.{canonical_key, get, values, all_token_bytes, capitalise}
use forwardproxy.Serve.Requests.{Request, is_connect_udp_request}
use forwardproxy.Std.Net.{IpText, join_host_port}
use forwardproxy.Std.Strconv.{atoi, itoa, digits_value}
use forwardproxy.Std.Url.{path_unescape}
use forwardproxy.Std.Strings.{
  contains, contains_any, equal_fold, has_byte, has_prefix, has_suffix, split, to_lower,
  trim_prefix,
}

abbrev no_addresses : IpText
no_addresses = record { parse_ip = λ s. none; parse_cidr = λ s. none; ip_string = λ ip. ip }

abbrev request : Request
request = record {
  method = codes "CONNECT";
  proto = codes "connect-udp";
  proto_major = 3;
  proto_minor = 0;
  host = codes "proxy.example";
  scheme = codes "https";
  url_host = codes "proxy.example";
  path = [];
  header = (codes "Capsule-Protocol", codes "?1" ∷ []) ∷ [];
  remote_addr = [];
  request_uri = [];
}

abbrev url : UrlRest
url = record {
  has_user = false;
  raw_query = [];
  force_query = false;
  fragment = [];
  raw_path = [];
  escaped_path = codes "/.well-known/masque/udp/dns%2Eexample/53/";
}

abbrev target : Target
target = record {
  host = codes "dns.example";
  port = codes "53";
  host_port = codes "dns.example:53";
}

parse_connect_udp_target-IsTarget_example :
    (is_connect_udp_request request ≡ true) × IsTarget no_addresses target
unfolding parse_connect_udp_target path_unescape all_ascii_digits canonical_domain is_label
    all_labels get values canonical_key capitalise all_token_bytes atoi itoa digits_value contains
    contains_any equal_fold has_byte has_prefix has_suffix split to_lower trim_prefix equal
    join_host_port is_connect_udp_request is_well_formed
parse_connect_udp_target-IsTarget_example =
    parse_connect_udp_target-IsTarget no_addresses (λ s. some s) request url target refl

-- One-byte integers.
abbrev small : Varint
small = record {
  parse = λ b. elim b [ [] ↦ none | c ∷ s ↦ some (c, 1) ];
  size = λ n. 1;
  append = λ b n. b ++ n ∷ [];
}

abbrev outside : Outside
outside = record {
  text = no_addresses;
  to_ascii = λ s. some s;
  lookup = λ s. none;
  has_capabilities = true;
  settings = some true;
  dials = λ a. true;
  has_stream = true;
  ending = deadline_exceeded;
}

abbrev limiter : Limiter
limiter = record {
  max_active = pos 1;
  max_client_active = pos 1;
  active = 0;
  by_client = [];
  next_id = 0;
}

serve_connect_udp-SamePlaces_example :
    SamePlaces limiter
      (serve_connect_udp outside
        (record { acl_rules = []; allowed_ports = [] })
        false
        request
        (some url)
        limiter).1
unfolding lookup
serve_connect_udp-SamePlaces_example =
    serve_connect_udp-SamePlaces outside (record { acl_rules = []; allowed_ports = [] }) false
      request (some url) limiter (λ c. 0) (λ c. refl)

abbrev zero_counters : Counters
zero_counters = record {
  h3_read_error = 0;
  malformed_context = 0;
  udp_write_error = 0;
  udp_read_error = 0;
  oversize = 0;
  h3_write_error = 0;
}

abbrev reads : List (Read ℕ)
reads = payload (codes "a") sent ∷ payload (codes "b") too_large ∷ payload (codes "d") sent ∷ []

pump_h3_to_udp-pump_udp_to_h3_example :
    (pump_h3_to_udp small zero_counters (
      arrive {E = ℕ}
        (pump_udp_to_h3 small zero_counters reads).passed
        (payloads_sent reads))).passed
    ≡ payloads_sent reads
unfolding payloads_sent
pump_h3_to_udp-pump_udp_to_h3_example =
    pump_h3_to_udp-pump_udp_to_h3 ℕ small zero_counters zero_counters reads
      (record { length_is = refl; reads = λ rest. refl }) (omega arith, (omega arith, tt))
