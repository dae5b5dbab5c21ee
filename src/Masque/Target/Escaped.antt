-- ===== src/Masque/Target/Escaped.antt =====
-- What the parser makes of an escaped path.
use forwardproxy.Base.{
  ℕ, ◌<◌, ◌≤◌, ◌≡◌, ◌∙◌, refl, ap, true, false, All, [], ◌∷◌, ◌++◌, Option, some, Bytes, codes,
  arith, is_nil,
}
use forwardproxy.Masque.Target.{
  UrlRest, all_ascii_digits, canonical_host, is_well_formed, of_parts, parse_connect_udp_target,
  target_of, unescaped, uri_prefix, with_port,
}
use forwardproxy.Serve.Requests.{Request}
use forwardproxy.Std.Net.{IpText, join_host_port}
use forwardproxy.Std.Strconv.Laws.{
  atoi-itoa, contains-only_digits, has_byte-only_digits, is_nil-itoa, only_digits-itoa,
}
use forwardproxy.Std.Strconv.{itoa}
use forwardproxy.Std.Strings.Laws.{split-append}
use forwardproxy.Std.Strings.{contains_any, has_byte, has_prefix, split, trim_prefix}
use forwardproxy.Std.Url.Laws.{
  contains-path_escape, has_byte-path_escape, is_escape_of, is_nil-path_escape,
  path_unescape-path_escape,
}
use forwardproxy.Std.Url.{path_escape}

-- A host that the path may carry: bytes, at least one, and none that the parser refuses.
pub record IsHost (host : Bytes) : Type 0 where
  pub bytes : All (λ c. c < 256) host
  pub some_byte : is_nil host ≡ false
  pub plain : contains_any host (codes "/\\%@[]") ≡ false

avoids_escape :
    (x y : ℕ) (s : Bytes)
    → ((c : ℕ) → c < 256 → has_byte c (codes "/\\%@[]") ≡ false → is_escape_of x y c ≡ false)
    → All (λ c. c < 256) s
    → contains_any s (codes "/\\%@[]") ≡ false
    → All (λ c. (c < 256) × (is_escape_of x y c ≡ false)) s
unfolding contains_any
avoids_escape x y [] h small e = tt
avoids_escape x y (c ∷ s) h (small, rest) e =
    ((small, h c small (ground (arith, e))), avoids_escape x y s h rest (ground (arith, e)))

escape_of_slash :
    (c : ℕ) → c < 256 → has_byte c (codes "/\\%@[]") ≡ false → is_escape_of b'2' b'f' c ≡ false
unfolding has_byte
escape_of_slash c small e = ground (arith, small, e)

escape_of_backslash :
    (c : ℕ) → c < 256 → has_byte c (codes "/\\%@[]") ≡ false → is_escape_of b'5' b'c' c ≡ false
unfolding has_byte
escape_of_backslash c small e = ground (arith, small, e)

module _ (text : IpText) (to_ascii : Bytes → Option Bytes) where
  unescaped-itoa :
      (host name : Bytes) (port : ℕ)
      → IsHost host
      → canonical_host text to_ascii host ≡ some name
      → 0 < port
      → port ≤ 65535
      → unescaped text to_ascii (some host) (itoa port)
        ≡ some
            (record { host = name; port = itoa port; host_port = join_host_port name (itoa port) })
  unfolding unescaped with_port target_of all_ascii_digits
  unescaped-itoa host name port v e lo hi = ground (
    arith,
    v.some_byte,
    v.plain,
    contains-only_digits b'%' (itoa port) refl (only_digits-itoa port),
    only_digits-itoa port,
    is_nil-itoa port,
    atoi-itoa port (omega (arith, hi)),
    e,
    lo,
    hi,
  )

  of_parts-escaped :
      (host name : Bytes) (port : ℕ)
      → IsHost host
      → canonical_host text to_ascii host ≡ some name
      → 0 < port
      → port ≤ 65535
      → of_parts text to_ascii (path_escape host ∷ itoa port ∷ [] ∷ [])
        ≡ some
            (record { host = name; port = itoa port; host_port = join_host_port name (itoa port) })
  unfolding of_parts
  of_parts-escaped host name port v e lo hi = ground (
    arith,
    v.some_byte,
    is_nil-path_escape host,
    is_nil-itoa port,
    contains-path_escape b'2' b'f' host
        (avoids_escape b'2' b'f' host escape_of_slash v.bytes v.plain),
    contains-path_escape b'5' b'c' host
        (avoids_escape b'5' b'c' host escape_of_backslash v.bytes v.plain),
    path_unescape-path_escape host v.bytes,
    unescaped-itoa host name port v e lo hi,
  )

  parts_of :
      (host : Bytes) (port : ℕ)
      → IsHost host
      → split b'/' (path_escape host ++ b'/' ∷ (itoa port ++ b'/' ∷ []))
        ≡ path_escape host ∷ itoa port ∷ [] ∷ []
  unfolding split
  parts_of host port v =
      split-append b'/' (path_escape host) (itoa port ++ b'/' ∷ [])
        (has_byte-path_escape host v.bytes)
      ∙ ap (λ parts. path_escape host ∷ parts)
          (split-append b'/' (itoa port) []
            (has_byte-only_digits b'/' (itoa port) refl (only_digits-itoa port)))

  -- A well-formed request whose path is made of an escaped host and a port in decimal.
  pub parse_connect_udp_target-escaped :
      (r : Request) (u : UrlRest) (host name : Bytes) (port : ℕ)
      → is_well_formed r u ≡ true
      → u.escaped_path ≡ uri_prefix ++ (path_escape host ++ b'/' ∷ (itoa port ++ b'/' ∷ []))
      → IsHost host
      → canonical_host text to_ascii host ≡ some name
      → 0 < port
      → port ≤ 65535
      → parse_connect_udp_target text to_ascii r (some u)
        ≡ some
            (record { host = name; port = itoa port; host_port = join_host_port name (itoa port) })
  unfolding parse_connect_udp_target has_prefix trim_prefix
  parse_connect_udp_target-escaped r u host name port ok path v e lo hi =
      rw ok (rw path (rw (parts_of host port v) (of_parts-escaped host name port v e lo hi)))
