-- ===== src/Interop/Opening/Parsing/Tests.antt =====
-- The request for an IPv6 address, sent with credentials.
use forwardproxy.Base.{[], none, some, codes, ◌≡◌, refl, arith}
use forwardproxy.Interop.Opening.Parsing.{parse_connect_udp_target-open_request}
use forwardproxy.Interop.Opening.{Client, open_request, open_url}
use forwardproxy.Masque.Target.{canonical_host, parse_connect_udp_target}
use forwardproxy.Std.Net.{IpText, join_host_port}
use forwardproxy.Std.Strconv.{itoa}
use forwardproxy.Std.Strings.{contains_any}

-- Every text is an address, by its bytes.
abbrev as_address : IpText
as_address = record { parse_ip = λ s. some s; parse_cidr = λ s. none; ip_string = λ ip. ip }

abbrev client : Client
client = record { proxy = codes "127.0.0.1:19443"; auth = codes "Basic dGVzdDpwYXNz" }

parse_connect_udp_target-open_request_example :
    parse_connect_udp_target as_address
      (λ s. none)
      (open_request client [] (codes "::1") 53)
      (some (open_url (codes "::1") 53))
    ≡ some (record {
      host = codes "::1";
      port = itoa 53;
      host_port = join_host_port (codes "::1") (itoa 53);
    })
unfolding canonical_host contains_any
parse_connect_udp_target-open_request_example =
    parse_connect_udp_target-open_request as_address (λ s. none) client [] (codes "::1")
      (codes "::1") 53 refl
      (record {
        bytes = (omega arith, (omega arith, (omega arith, tt)));
        some_byte = refl;
        plain = refl;
      })
      refl (omega arith) (omega arith)
