-- ===== src/Setup/Caddyfile/Tests.antt =====
-- A Caddyfile with a port, probe resistance and credentials, and a client that has these.
use forwardproxy.Base.{
  ◌+◌, ◌-◌, arith, ap, ◌++◌, true, false, List, [], ◌∷◌, none, some, Bytes, codes, pos, ◌≡◌, refl,
  equal,
}
use forwardproxy.Serve.Auth.Accepts.{is_accepted}
use forwardproxy.Serve.Auth.{Codec, check_credentials}
use forwardproxy.Setup.Caddyfile.Accepted.{basic_auth-accepts_client}
use forwardproxy.Setup.Caddyfile.Checked.{unmarshal_caddyfile-IsChecked}
use forwardproxy.Setup.Caddyfile.Credentials.{IsBase64}
use forwardproxy.Setup.Caddyfile.Directives.{IsChecked}
use forwardproxy.Setup.Caddyfile.{Config, Directive, Setting, unmarshal_caddyfile, zero_config}
use forwardproxy.Std.Strings.{has_byte, last_index_byte}
use forwardproxy.Std.Strconv.{atoi}
use forwardproxy.Serve.Rewriting.{url_port}
use forwardproxy.Upstream.Client.{
  Dialer, ProxyUrl, request_header, user_header, new_http_connect_dialer,
}

shift : Bytes → Bytes
shift [] = []
shift (c ∷ s) = (c + 33) ∷ shift s

unshift : Bytes → Bytes
unshift [] = []
unshift (c ∷ s) = (c - 33) ∷ unshift s

unshift-shift : (s : Bytes) → unshift (shift s) ≡ s
unfolding shift unshift
unshift-shift [] = refl
unshift-shift (c ∷ s) = rw (unshift-shift s) (ap (λ n. n ∷ s) (omega arith))

has_byte-shift : (s : Bytes) → has_byte b' ' (shift s) ≡ false
unfolding shift has_byte
has_byte-shift [] = refl
has_byte-shift (c ∷ s) = ground (arith, has_byte-shift s)

-- An encoding with the two laws of base64 that the program relies on.
abbrev shift_codec : Codec
shift_codec = record { encode = shift; decode = λ s. (unshift s, none); valid_utf8 = λ s. true }

shift_codec-IsBase64 : IsBase64 shift_codec
shift_codec-IsBase64 = record {
  decode_encode = λ s. ap (λ x. (x, none)) (unshift-shift s);
  no_space = has_byte-shift;
}

abbrev file_setting : Setting
file_setting = record {
  codec = shift_codec;
  parse_duration = λ s. some (pos 5);
  read_lines = λ name. none;
}

abbrev line : Bytes → List Bytes → Directive
line name args = record { name = name; args = args; block = none }

abbrev before : List Directive
before = line (codes "ports") (codes "443" ∷ []) ∷ line (codes "probe_resistance") [] ∷ []

abbrev user : Directive
user = line (codes "basic_auth") (codes "me" ∷ codes "pw" ∷ [])

abbrev configuration : Config
configuration = record zero_config {
  auth_credentials = some (shift (codes "me:pw") ∷ []);
  allowed_ports = pos 443 ∷ [];
  probe_resistance = some [];
}

abbrev url : ProxyUrl
url = record {
  scheme = codes "https";
  host = codes "proxy:443";
  user = some (codes "me", codes "pw");
}

abbrev client : Dialer
client = record {
  proxy_url = url;
  default_header = user_header shift_codec (some (codes "me", codes "pw"));
  enable_h2_conn_reuse = true;
  cached = none;
}

unmarshal_caddyfile-IsChecked_example : IsChecked shift_codec configuration
unfolding unmarshal_caddyfile equal atoi has_byte
unmarshal_caddyfile-IsChecked_example =
    unmarshal_caddyfile-IsChecked file_setting [] (before ++ user ∷ []) configuration refl

basic_auth-accepts_client_example :
    is_accepted shift_codec (
      check_credentials shift_codec
        (shift (codes "me:pw") ∷ [])
        (request_header client.default_header none))
    ≡ true
unfolding unmarshal_caddyfile equal atoi has_byte new_http_connect_dialer url_port last_index_byte
basic_auth-accepts_client_example =
    basic_auth-accepts_client file_setting shift_codec-IsBase64 before [] none (codes "me")
      (codes "pw") configuration url client refl refl refl
