-- ===== src/Setup/Provision/Tests.antt =====
-- Handlers that are set up: one with credentials and probe resistance, one with an upstream; and a
-- prober of the first.
use forwardproxy.Acl.{AclRule, all_rule, ip_rule, new_acl_rule, provision_rules}
use forwardproxy.Base.{ℕ, true, false, List, [], ◌∷◌, none, some, codes, pos, ◌≡◌, refl, equal}
use forwardproxy.Serve.Auth.{Codec, check_credentials, required}
use forwardproxy.Serve.Dialing.{wins}
use forwardproxy.Serve.Headers.{get, values, canonical_key, all_token_bytes, capitalise}
use forwardproxy.Serve.Rewriting.{url_port}
use forwardproxy.Std.Strings.{last_index_byte, split, has_byte}
use forwardproxy.Serve.Requests.{Request, passed_on}
use forwardproxy.Serve.Routing.{Outside, answers, serve_http, req_host, should_serve_pac_file}
use forwardproxy.Setup.Caddyfile.{Config, zero_config}
use forwardproxy.Setup.Provision.Limits.{provision-probed}
use forwardproxy.Setup.Provision.Safety.{IsSafe, UsesTable, provision-IsSafe}
use forwardproxy.Setup.Provision.{
  Ready, Setting, Unexported, connects, defaults, dials_through, handler_of, provision,
}
use forwardproxy.Std.Net.{IpNet, split_host_port}
use forwardproxy.Upstream.Client.{Dialer, ProxyUrl, new_http_connect_dialer}

abbrev plain_codec : Codec
plain_codec = record { encode = λ s. s; decode = λ s. (s, none); valid_utf8 = λ s. true }

abbrev net : IpNet
net = record { ip = []; mask = [] }

abbrev url : ProxyUrl
url = record { scheme = codes "https"; host = codes "localhost:443"; user = none }

abbrev setting : Setting
setting = record {
  codec = plain_codec;
  text = record { parse_ip = λ s. none; parse_cidr = λ s. some net; ip_string = λ ip. ip };
  metrics_fail = false;
  parse = λ s. some url;
  parse_printed = λ u. some u;
  hostname = λ u. codes "localhost";
  user_string = λ u. [];
  from_url = λ u f. f u;
}

setting-UsesTable : UsesTable setting
setting-UsesTable = λ u f d skips e. e

abbrev unexported : Unexported
unexported = record { max_active = pos 0; max_client_active = pos 3; idle_timeout = pos 0 }

abbrev guarded : Config
guarded = record zero_config {
  auth_credentials = some (codes "me:pw" ∷ []);
  probe_resistance = some (codes "secret.localhost");
}

abbrev chained : Config
chained = record zero_config { upstream = codes "https://localhost:443" }

abbrev deny : AclRule
deny = ip_rule net false

abbrev rules : List AclRule
rules = deny ∷ deny ∷ deny ∷ deny ∷ deny ∷ deny ∷ all_rule true ∷ []

abbrev dialer : Dialer
dialer = record { proxy_url = url; default_header = []; enable_h2_conn_reuse = true; cached = none }

abbrev handler : Ready
handler = defaults guarded unexported rules

abbrev chained_handler : Ready
chained_handler = record (defaults chained unexported rules) {
  upstream = some url;
  dials = dials_through (connects dialer true);
}

provision-IsSafe_example : IsSafe setting chained chained_handler
unfolding provision provision_rules new_acl_rule equal new_http_connect_dialer url_port
    last_index_byte
provision-IsSafe_example =
    provision-IsSafe setting chained unexported chained_handler setting-UsesTable refl

abbrev outside : Outside ℕ
outside = record {
  codec = plain_codec;
  hosts_match = λ r. false;
  dial_context = λ h n a. record { conn = none; failure = none; context_error = none };
  race = λ n host port. wins 7;
  padding_extra = 0;
  padding_bits = 0;
  flush_fails = false;
  hijack_fails = false;
  client_flush_fails = false;
  body_read_fails = false;
  body_close_fails = false;
  round_trip =
      λ r. answers (record { status = 200; proto_major = 1; proto_minor = 1; header = [] });
  write_fails = λ r. false;
  read_response = λ r. none;
}

abbrev probe : Request
probe = record {
  method = codes "GET";
  proto = codes "HTTP/1.1";
  proto_major = 1;
  proto_minor = 1;
  host = codes "good.com";
  scheme = [];
  url_host = [];
  path = codes "/";
  header = [];
  remote_addr = [];
  request_uri = [];
}

provision-probed_example :
    serve_http outside (handler_of setting handler) probe [] ≡ passed_on probe
unfolding provision provision_rules new_acl_rule equal check_credentials req_host
    should_serve_pac_file split get values canonical_key all_token_bytes capitalise has_byte
    split_host_port last_index_byte
provision-probed_example =
    provision-probed setting outside guarded unexported handler (codes "secret.localhost") probe []
      setting-UsesTable refl refl (λ configured e. (none, required, refl)) (λ e. absurd (cc)) refl
