-- ===== src/Masque/Target.antt =====
-- native_udp_protocol.go, `parseConnectUDPTarget` and `redactConnectUDPRequest`; also
-- `clientAddressKey` of native_udp_association.go.
pub mod Domains
pub mod Escaped
use forwardproxy.Base.{
  ℕ, zero, suc, ◌+◌, ◌-◌, ◌*◌, ℤ, pos, negsuc, Bool, true, false, not, ◌&&◌, ◌||◌, List, [], ◌∷◌,
  ◌++◌, Option, none, some, Bytes, codes, equal, leb, ltb, ◌==◌, if◌then◌else◌, length, is_nil,
}
use forwardproxy.Serve.Headers.{get}
use forwardproxy.Serve.Requests.{Request, is_connect_udp_request}
use forwardproxy.Std.Net.{IpText, host_port, bad_address, join_host_port, split_host_port}
use forwardproxy.Std.Strconv.{atoi, is_digit, itoa, only_digits}
use forwardproxy.Std.Url.{path_unescape}
use forwardproxy.Std.Strings.{
  contains, contains_any, equal_fold, has_byte, has_prefix, has_suffix, lower, split, to_lower,
  trim_prefix,
}

-- `connectUDPTarget`
pub record Target : Type 0 where
  pub host : Bytes
  pub port : Bytes
  pub host_port : Bytes

-- The parts of a request's address that only this path reads.
pub record UrlRest : Type 0 where
  pub has_user : Bool
  pub raw_query : Bytes
  pub force_query : Bool
  pub fragment : Bytes
  pub raw_path : Bytes
  pub escaped_path : Bytes

abbrev pub uri_prefix : Bytes
uri_prefix = codes "/.well-known/masque/udp/"

abbrev pub redacted_path : Bytes
redacted_path = codes "/.well-known/masque/udp/redacted/0/"

-- `allASCIIDigits`
unfoldable pub all_ascii_digits : Bytes → Bool
unfolding only_digits
all_ascii_digits value = not (is_nil value) && only_digits value

abbrev pub is_label_byte : ℕ → Bool
is_label_byte c = leb b'a' c && leb c b'z' || leb b'0' c && leb c b'9' || c == b'-'

unfoldable pub all_label_bytes : Bytes → Bool
all_label_bytes [] = true
all_label_bytes (c ∷ s) = is_label_byte c && all_label_bytes s

unfoldable pub is_label : Bytes → Bool
unfolding all_label_bytes
is_label label =
    not (is_nil label)
    && leb (length label) 63
    && not (has_prefix label (codes "-"))
    && not (has_suffix label (codes "-"))
    && all_label_bytes label

unfoldable pub all_labels : List Bytes → Bool
all_labels [] = true
all_labels (label ∷ labels) = is_label label && all_labels labels

canonical_ascii : Bytes → Option Bytes
canonical_ascii ascii =
    if is_nil ascii || ltb 253 (length ascii) || has_suffix ascii (codes ".")
    then none
    else if all_labels (split b'.' ascii)
    then some ascii
    else none

-- `canonicalDomain`; `to_ascii` is `idna.Lookup.ToASCII`.
unfoldable pub canonical_domain : (Bytes → Option Bytes) → Bytes → Option Bytes
unfolding canonical_ascii
canonical_domain to_ascii host = elim (to_ascii host) [
  | none ↦ none
  | some ascii ↦ canonical_ascii (to_lower ascii)
]

-- The first test of the parser.
unfoldable pub is_well_formed : Request → UrlRest → Bool
is_well_formed r u =
    is_connect_udp_request r
    && equal r.scheme (codes "https")
    && not (is_nil r.host)
    && not (is_nil r.url_host)
    && equal_fold r.host r.url_host
    && not u.has_user
    && is_nil u.raw_query
    && not u.force_query
    && is_nil u.fragment
    && equal (get (codes "Capsule-Protocol") r.header) (codes "?1")

module _ (text : IpText) (to_ascii : Bytes → Option Bytes) where
  unfoldable pub canonical_host : Bytes → Option Bytes
  canonical_host host = elim (text.parse_ip host) [
    | some ip ↦ some (text.ip_string ip)
    | none ↦ canonical_domain to_ascii host
  ]

  target_of : Option Bytes → ℕ → Option Target
  target_of none n = none
  target_of (some host) n =
      some (record { host = host; port = itoa n; host_port = join_host_port host (itoa n) })

  with_port : Bytes → Option ℤ → Option Target
  unfolding target_of canonical_host
  with_port host (some (pos n)) =
      if leb 1 n && leb n 65535 then target_of (canonical_host host) n else none
  with_port host _ = none

  unescaped : Option Bytes → Bytes → Option Target
  unfolding with_port
  unescaped none raw_port = none
  unescaped (some host) raw_port =
      if is_nil host || contains_any host (codes "/\\%@[]")
      then none
      else if contains raw_port (codes "%") || not (all_ascii_digits raw_port)
      then none
      else with_port host (atoi raw_port)

  of_parts : List Bytes → Option Target
  unfolding unescaped
  of_parts (raw_host ∷ raw_port ∷ [] ∷ []) =
      if is_nil raw_host || is_nil raw_port
      then none
      else if contains (to_lower raw_host) (codes "%2f")
          || contains (to_lower raw_host) (codes "%5c")
      then none
      else unescaped (path_unescape raw_host) raw_port
  of_parts _ = none

  -- `parseConnectUDPTarget`, `none` for its one error; a nil URL has no rest.
  unfoldable pub parse_connect_udp_target : Request → Option UrlRest → Option Target
  unfolding of_parts
  parse_connect_udp_target r none = none
  parse_connect_udp_target r (some u) =
      if not (is_well_formed r u)
      then none
      else if not (has_prefix u.escaped_path uri_prefix)
      then none
      else of_parts (split b'/' (trim_prefix u.escaped_path uri_prefix))

-- `redactConnectUDPRequest`
unfoldable pub redact_connect_udp_request : Request → UrlRest → Request × UrlRest
redact_connect_udp_request r u = (
  record r { path = redacted_path; request_uri = redacted_path },
  record u {
    raw_path = [];
    raw_query = [];
    force_query = false;
    fragment = [];
    escaped_path = redacted_path;
  },
)

module _ (text : IpText) where
  keyed : Bytes → Bytes
  keyed [] = codes "unknown"
  keyed (c ∷ host) = elim (text.parse_ip (c ∷ host)) [
    | some ip ↦ text.ip_string ip
    | none ↦ to_lower (c ∷ host)
  ]

  -- `clientAddressKey`
  unfoldable pub client_address_key : Bytes → Bytes
  unfolding keyed
  client_address_key address = elim (split_host_port address) [
    | bad_address _ ↦ codes "unknown"
    | host_port host _ ↦ keyed host
  ]
