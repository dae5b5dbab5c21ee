-- ===== src/Interop/Served/Tests.antt =====
-- Runs of the client through a server that allows every address.
use forwardproxy.Acl.{all_rule, host_is_allowed, try_match}
use forwardproxy.Base.{
  ℕ, ◌<◌, Bool, true, ◌&&◌, All, List, [], ◌∷◌, ◌++◌, Option, none, some, Bytes, codes, equal,
  if◌then◌else◌, ltb, ◌≡◌, refl, arith, pos,
}
use forwardproxy.Base.Dict.{count_at, insert, lookup}
use forwardproxy.Interop.Dns.{dns_answer}
use forwardproxy.Interop.Matrix.Passes.{run_matrix-passes}
use forwardproxy.Interop.Matrix.{Fixtures, loopback, private_domain_target, run_matrix}
use forwardproxy.Interop.Opening.{Client}
use forwardproxy.Interop.Served.{IsOpen, Net, Serves, echo-served, served, served-Relays}
use forwardproxy.Interop.Session.{Service, echo, ok}
use forwardproxy.Masque.Datagrams.{Varint}
use forwardproxy.Masque.Serving.{
  Outside, admitted_udp, association_close_reason, deadline_exceeded, dial_connect_udp_target,
}
use forwardproxy.Masque.Target.{canonical_host}
use forwardproxy.Policy.{
  Rules, admit_address, admit_addresses, collected, domain_policy, looked_up, member,
  port_is_allowed, prepare_target_policy, resolve_target_check_acl,
}
use forwardproxy.Std.Net.{IpText, join_host_port, split_host_port}
use forwardproxy.Std.Strconv.{atoi, digits_value, itoa}
use forwardproxy.Std.Strings.{contains_any, has_byte, index_byte, last_index_byte}
use forwardproxy.Udp.Admission.{Limiter, acquire, limit_or}

-- Every text is an address, by its bytes.
abbrev as_address : IpText
as_address = record { parse_ip = λ s. some s; parse_cidr = λ s. none; ip_string = λ ip. ip }

abbrev outside : Outside
outside = record {
  text = as_address;
  to_ascii = λ s. none;
  lookup = λ s. some ((1 ∷ 1 ∷ 1 ∷ 1 ∷ []) ∷ []);
  has_capabilities = true;
  settings = some true;
  dials = λ a. true;
  has_stream = true;
  ending = deadline_exceeded;
}

abbrev rules : Rules
rules = record { acl_rules = all_rule true ∷ []; allowed_ports = [] }

abbrev limiter : Limiter
limiter = record {
  max_active = pos 1;
  max_client_active = pos 1;
  active = 0;
  by_client = [];
  next_id = 0;
}

-- One-byte integers.
abbrev small : Varint
small = record {
  parse = λ b. elim b [ [] ↦ none | c ∷ s ↦ some (c, 1) ];
  size = λ n. 1;
  append = λ b n. b ++ n ∷ [];
}

abbrev client : Client
client = record { proxy = codes "127.0.0.1:19443"; auth = [] }

abbrev net : Net
net = record { next = 0; address = λ s. []; inbox = λ s. none }

-- The fixture's name server behind one address, an echo behind every other.
abbrev targets : Bytes → Bytes → Option Bytes
targets address payload =
    if equal address ((1 ∷ 1 ∷ 1 ∷ 1 ∷ []) ++ codes ":53") then dns_answer payload else some payload

abbrev service : Service Net
service = served outside rules limiter small targets 1200 client []

abbrev IsOpenHere : Type 0
IsOpenHere = IsOpen outside rules limiter small targets 1200 client []

abbrev ServesHere : Bytes → ℕ → (Bytes → Option Bytes) → Type 0
ServesHere = Serves outside rules limiter small targets 1200 client []

all_bytes : Bytes → Bool
all_bytes [] = true
all_bytes (c ∷ s) = ltb c 256 && all_bytes s

bytes_of : (s : Bytes) → all_bytes s ≡ true → All (λ c. c < 256) s
unfolding all_bytes
bytes_of [] e = tt
bytes_of (c ∷ s) e = (ground (arith, e), bytes_of s (ground (arith, e)))

is_open : IsOpenHere
unfolding acquire limit_or count_at lookup insert split_host_port
is_open = record {
  proxy = refl;
  bounded = ground arith;
  id = _;
  active = _;
  taken = _;
  place = refl;
  reads = record { length_is = refl; reads = λ rest. refl };
  zero_byte = refl;
}

serves_v4 : ServesHere loopback 7 some
unfolding contains_any canonical_host admitted_udp resolve_target_check_acl prepare_target_policy
    split_host_port join_host_port itoa port_is_allowed atoi digits_value domain_policy
    admit_addresses admit_address host_is_allowed try_match looked_up member has_byte index_byte
    last_index_byte association_close_reason dial_connect_udp_target collected equal all_bytes
serves_v4 = record {
  is_host = record { bytes = bytes_of loopback refl; some_byte = refl; plain = refl };
  positive = omega arith;
  in_range = omega arith;
  name = _;
  canonical = refl;
  address = _;
  ending = _;
  runs = refl;
  answers = λ payload. refl;
}

serves_v6 : ServesHere (codes "::1") 8 some
unfolding contains_any canonical_host admitted_udp resolve_target_check_acl prepare_target_policy
    split_host_port join_host_port itoa port_is_allowed atoi digits_value domain_policy
    admit_addresses admit_address host_is_allowed try_match looked_up member has_byte index_byte
    last_index_byte association_close_reason dial_connect_udp_target collected equal all_bytes
serves_v6 = record {
  is_host = record { bytes = bytes_of (codes "::1") refl; some_byte = refl; plain = refl };
  positive = omega arith;
  in_range = omega arith;
  name = _;
  canonical = refl;
  address = _;
  ending = _;
  runs = refl;
  answers = λ payload. refl;
}

serves_domain : ServesHere private_domain_target 8 some
unfolding contains_any canonical_host admitted_udp resolve_target_check_acl prepare_target_policy
    split_host_port join_host_port itoa port_is_allowed atoi digits_value domain_policy
    admit_addresses admit_address host_is_allowed try_match looked_up member has_byte index_byte
    last_index_byte association_close_reason dial_connect_udp_target collected equal all_bytes
serves_domain = record {
  is_host = record { bytes = bytes_of private_domain_target refl; some_byte = refl; plain = refl };
  positive = omega arith;
  in_range = omega arith;
  name = _;
  canonical = refl;
  address = _;
  ending = _;
  runs = refl;
  answers = λ payload. refl;
}

serves_dns : ServesHere loopback 53 dns_answer
unfolding contains_any canonical_host admitted_udp resolve_target_check_acl prepare_target_policy
    split_host_port join_host_port itoa port_is_allowed atoi digits_value domain_policy
    admit_addresses admit_address host_is_allowed try_match looked_up member has_byte index_byte
    last_index_byte association_close_reason dial_connect_udp_target collected equal all_bytes
serves_dns = record {
  is_host = record { bytes = bytes_of loopback refl; some_byte = refl; plain = refl };
  positive = omega arith;
  in_range = omega arith;
  name = _;
  canonical = refl;
  address = _;
  ending = _;
  runs = refl;
  answers = λ payload. refl;
}

echo-served_example : (w' : Net) × (echo service (codes "::1") 8 (codes "ping") net ≡ (ok tt, w'))
echo-served_example =
    echo-served outside rules limiter small targets 1200 client [] (codes "::1") 8 (codes "ping")
      net is_open serves_v6 (omega arith)

abbrev fixtures : Fixtures
fixtures = record { ipv4 = 7; dual = 8; dns = 53 }

abbrev order : List ℕ
order = 1 ∷ 0 ∷ 2 ∷ 3 ∷ 7 ∷ 6 ∷ 5 ∷ 4 ∷ []

run_matrix-passes_example :
    (w' : Net) × (run_matrix service (some fixtures) order net ≡ (ok tt, w'))
unfolding itoa
run_matrix-passes_example =
    run_matrix-passes service ServesHere 1200
      (served-Relays outside rules limiter small targets 1200 client [] is_open) fixtures order net
      (omega arith) (omega arith) serves_v4 serves_v6 serves_domain serves_dns
      (
        omega arith,
        (
          omega arith,
          (
            omega arith,
            (omega arith, (omega arith, (omega arith, (omega arith, (omega arith, tt))))),
          ),
        ),
      )
