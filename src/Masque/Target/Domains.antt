-- ===== src/Masque/Target/Domains.antt =====
-- What a target that the parser accepts looks like.
use mathlib.Core.Path.{subst}
use forwardproxy.Base.{
  ℕ, ◌≤◌, ◌<◌, ℤ, pos, negsuc, true, false, List, [], ◌∷◌, Option, none, some, Bytes, ◌≡◌, ◌⊎◌, inl,
  inr, refl, arith, Option-cases, length, is_nil,
}
use forwardproxy.Masque.Target.{
  Target, UrlRest, all_labels, canonical_ascii, canonical_domain, canonical_host, is_well_formed,
  of_parts, parse_connect_udp_target, target_of, unescaped, uri_prefix, with_port,
}
use forwardproxy.Serve.Requests.{Request, is_connect_udp_request}
use forwardproxy.Std.Net.{Ip, IpText, join_host_port}
use forwardproxy.Std.Strconv.{atoi, itoa}
use forwardproxy.Std.Url.{path_unescape}
use forwardproxy.Std.Strings.{split, to_lower, trim_prefix}

-- A name in lower case that the rules for hostnames admit: labels of 1 to 63 letters, digits and
-- inner dashes, at most 253 bytes in all.
pub record IsDomain (name : Bytes) : Type 0 where
  pub some_byte : is_nil name ≡ false
  pub short : length name ≤ 253
  pub labels : all_labels (split b'.' name) ≡ true

pub record IsTarget (text : IpText) (t : Target) : Type 0 where
  pub number : ℕ
  pub positive : 0 < number
  pub in_range : number ≤ 65535
  pub port_is : t.port ≡ itoa number
  pub joined : t.host_port ≡ join_host_port t.host t.port
  pub host_is : ((ip : Ip) × (t.host ≡ text.ip_string ip)) ⊎ IsDomain t.host

canonical_ascii-IsDomain : (ascii name : Bytes) → canonical_ascii ascii ≡ some name → IsDomain name
unfolding canonical_ascii
canonical_ascii-IsDomain ascii name e = record {
  some_byte = ground arith;
  short = ground arith;
  labels = ground arith;
}

module _ (text : IpText) (to_ascii : Bytes → Option Bytes) where
  canonical_domain-IsDomain :
      (host name : Bytes) → canonical_domain to_ascii host ≡ some name → IsDomain name
  unfolding canonical_domain
  canonical_domain-IsDomain host name e = elim (Option-cases (to_ascii host)) [
    | inl h ↦ absurd (cc (rw (h, canonical_domain) at e))
    | inr (ascii, h) ↦
        canonical_ascii-IsDomain (to_lower ascii) name (rw (h, canonical_domain) at e)
  ]

  canonical_host_is :
      (host name : Bytes)
      → canonical_host text to_ascii host ≡ some name
      → ((ip : Ip) × (name ≡ text.ip_string ip)) ⊎ IsDomain name
  unfolding canonical_host
  canonical_host_is host name e = elim (Option-cases (text.parse_ip host)) [
    | inl h ↦ inr (canonical_domain-IsDomain host name (rw (h, canonical_host) at e))
    | inr (ip, h) ↦ inl (ip, ground (arith, h, e))
  ]

  target_of-IsTarget :
      (host : Option Bytes) (n : ℕ) (t : Target)
      → 0 < n
      → n ≤ 65535
      → ((name : Bytes)
          → host ≡ some name
          → ((ip : Ip) × (name ≡ text.ip_string ip)) ⊎ IsDomain name)
      → target_of text to_ascii host n ≡ some t
      → IsTarget text t
  unfolding target_of
  target_of-IsTarget none n t lo hi h e = absurd (cc)
  target_of-IsTarget (some name) n t lo hi h e =
      let same : ◌≡◌ {A = Target}
          (record { host = name; port = itoa n; host_port = join_host_port name (itoa n) }) t =
        ground (arith, e) in
      subst (λ o. IsTarget text o) same
        (record {
          number = n;
          positive = lo;
          in_range = hi;
          port_is = refl;
          joined = refl;
          host_is = h name refl;
        })

  with_port-IsTarget :
      (host : Bytes) (port : Option ℤ) (t : Target)
      → with_port text to_ascii host port ≡ some t
      → IsTarget text t
  unfolding with_port
  with_port-IsTarget host none t e = absurd (cc)
  with_port-IsTarget host (some (negsuc n)) t e = absurd (cc)
  with_port-IsTarget host (some (pos n)) t e =
      target_of-IsTarget (canonical_host text to_ascii host) n t (ground arith) (ground arith)
        (canonical_host_is host) (ground arith)

  unescaped-IsTarget :
      (host : Option Bytes) (port : Bytes) (t : Target)
      → unescaped text to_ascii host port ≡ some t
      → IsTarget text t
  unfolding unescaped
  unescaped-IsTarget none port t e = absurd (cc)
  unescaped-IsTarget (some host) port t e = with_port-IsTarget host (atoi port) t (ground arith)

  of_parts-IsTarget :
      (parts : List Bytes) (t : Target) → of_parts text to_ascii parts ≡ some t → IsTarget text t
  unfolding of_parts
  of_parts-IsTarget (h ∷ p ∷ [] ∷ []) t e = unescaped-IsTarget (path_unescape h) p t (ground arith)
  of_parts-IsTarget [] t e = absurd (cc)
  of_parts-IsTarget (h ∷ []) t e = absurd (cc)
  of_parts-IsTarget (h ∷ p ∷ []) t e = absurd (cc)
  of_parts-IsTarget (h ∷ p ∷ (c ∷ q) ∷ []) t e = absurd (cc)
  of_parts-IsTarget (h ∷ p ∷ [] ∷ q ∷ qs) t e = absurd (cc)
  of_parts-IsTarget (h ∷ p ∷ (c ∷ d) ∷ q ∷ qs) t e = absurd (cc)

  -- A target that `parseConnectUDPTarget` accepts comes from a CONNECT-UDP request. Its port is the
  -- decimal form of a number from 1 to 65535, its host is the library's text of an IP address or a
  -- domain name in lower case within the limits of the domain name system, and the string that the
  -- dial path splits again joins these two.
  pub parse_connect_udp_target-IsTarget :
      (r : Request) (u : UrlRest) (t : Target)
      → parse_connect_udp_target text to_ascii r (some u) ≡ some t
      → (is_connect_udp_request r ≡ true) × IsTarget text t
  unfolding parse_connect_udp_target is_well_formed
  parse_connect_udp_target-IsTarget r u t e = (
    ground arith,
    of_parts-IsTarget (split b'/' (trim_prefix u.escaped_path uri_prefix)) t (ground arith),
  )
