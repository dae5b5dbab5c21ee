-- ===== src/Serve/Racing/Tests.antt =====
-- A CONNECT request whose dial is a run of the race: one IPv4 answer, and its dial gives connection 7.
use forwardproxy.Acl.{all_rule, host_is_allowed, try_match}
use forwardproxy.Base.{
  ℕ, ◌<◌, Bool, false, true, List, [], ◌∷◌, All, none, some, Bytes, codes, ◌≡◌, refl, equal,
}
use forwardproxy.Dial.Feed.{advance, answers, pulse, resolve}
use forwardproxy.Dial.Incremental.Starts.{IsDialable}
use forwardproxy.Dial.Incremental.{
  Action, checks, ends_dial, looks_up, receives, returned, run, step, won,
}
use forwardproxy.Dial.Interleave.{ip_family, same_family, tcp, v4, wrong_family}
use forwardproxy.Dial.Pool.Owners.{count}
use forwardproxy.Dial.Pool.{dial_ends, launch, take_result}
use forwardproxy.Policy.{admitted, domain_policy, member, port_is_allowed, prepare_target_policy}
use forwardproxy.Serve.Dialing.{dial_context_check_acl, dial_prepared, raced, wins}
use forwardproxy.Serve.Headers.{get, negotiate_naive_padding, values}
use forwardproxy.Serve.Racing.{RunsRaces, race_of, race_result, serve_http-tunnels}
use forwardproxy.Serve.Requests.{
  Handler, Request, is_connect_udp_request, is_unsupported_extended_connect,
}
use forwardproxy.Serve.Routing.{
  Outside, answers as replies_with, req_host, serve_http, routed, admitted_request, connect_padded,
  on_negotiated, on_dial, tunnel, serve_checked, checked, should_serve_pac_file,
}
use forwardproxy.Std.Net.{IpText, split_host_port, to4}
use forwardproxy.Std.Strconv.{atoi, digits_value}
use forwardproxy.Std.Strings.{index_byte}

abbrev raw_text : IpText
raw_text = record { parse_ip = λ s. none; parse_cidr = λ s. none; ip_string = λ ip. ip }

abbrev actions : List (Action ℕ)
actions =
    looks_up v4 (answers ((11 ∷ 0 ∷ 0 ∷ 1 ∷ []) ∷ []))
    ∷ checks 1
    ∷ ends_dial 0 (some 7) none none
    ∷ checks 0
    ∷ receives 0
    ∷ []

abbrev outside : Outside ℕ
outside = record {
  codec = record { encode = λ s. s; decode = λ s. (s, none); valid_utf8 = λ s. true };
  hosts_match = λ r. false;
  dial_context = λ h n a. record { conn = none; failure = none; context_error = none };
  race = λ n host port. wins 7;
  padding_extra = 0;
  padding_bits = 0;
  flush_fails = false;
  hijack_fails = false;
  client_flush_fails = false;
  body_read_fails = false;
  body_close_fails = false;
  round_trip =
      λ r. replies_with (record { status = 200; proto_major = 1; proto_minor = 1; header = [] });
  write_fails = λ r. false;
  read_response = λ r. none;
}

abbrev handler : Handler
handler = record {
  pac_path = [];
  hide_ip = true;
  hide_via = true;
  probe_resistance = none;
  auth_credentials = none;
  rules = record { acl_rules = all_rule true ∷ []; allowed_ports = [] };
  upstream = none;
}

abbrev request : Request
request = record {
  method = codes "CONNECT";
  proto = codes "HTTP/1.1";
  proto_major = 1;
  proto_minor = 1;
  host = codes "good.com:443";
  scheme = [];
  url_host = codes "good.com:443";
  path = [];
  header = [];
  remote_addr = [];
  request_uri = [];
}

abbrev never : ℕ → Bool
never e = false

abbrev races : RunsRaces raw_text 1 2 outside handler never
unfolding run step advance resolve host_is_allowed try_match same_family ip_family wrong_family
    member pulse dial_ends launch take_result race_result to4
races = record {
  context_error = λ host port. none;
  actions = λ host port. actions;
  ends_with = λ host port. won 7;
  returns = λ host port. refl;
  gives = λ host port. refl;
}

serve_http-tunnels_example :
    (host port : Bytes) × (prepare_target_policy handler.rules (codes "good.com:443")
      ≡ admitted host port)
    × ((race_of raw_text 1 2 outside handler races host port).place ≡ returned (won 7))
    × All
        (IsDialable raw_text handler.rules.acl_rules tcp host port)
        (race_of raw_text 1 2 outside handler races host port).starts
    × (count 7 (race_of raw_text 1 2 outside handler races host port).pool.closed
        < count 7 (race_of raw_text 1 2 outside handler races host port).pool.opened)
unfolding serve_http serve_checked routed admitted_request on_negotiated connect_padded on_dial
    tunnel checked equal index_byte req_host split_host_port negotiate_naive_padding
    is_connect_udp_request is_unsupported_extended_connect dial_context_check_acl
    prepare_target_policy port_is_allowed atoi digits_value domain_policy dial_prepared raced
    should_serve_pac_file values get
serve_http-tunnels_example =
    serve_http-tunnels raw_text 1 2 outside handler never request [] 7 races refl refl
