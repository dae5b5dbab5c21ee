-- ===== src/Interop/Opening/Parsing.antt =====
-- The client's request, as the server's parser reads it.
mod Tests
use forwardproxy.Base.{
  ℕ, ◌<◌, ◌≤◌, ◌≡◌, refl, Bool-cases, inl, inr, false, true, [], ◌∷◌, Option, some, Bytes, codes,
  arith, equal, equal_refl, is_nil,
}
use forwardproxy.Interop.Opening.{Client, open_request, open_url, open_header, request_path}
use forwardproxy.Masque.Target.Escaped.{IsHost, parse_connect_udp_target-escaped}
use forwardproxy.Masque.Target.{canonical_host, is_well_formed, parse_connect_udp_target}
use forwardproxy.Serve.Headers.{
  all_token_bytes, canonical_key, capitalise, get, set_value, values, without,
}
use forwardproxy.Serve.Requests.{is_connect_udp_request}
use forwardproxy.Std.Net.{IpText, join_host_port}
use forwardproxy.Std.Strconv.{itoa}
use forwardproxy.Std.Strings.{equal_fold, has_byte, to_lower}

get-open_header : (auth : Bytes) → get (codes "Capsule-Protocol") (open_header auth) ≡ codes "?1"
unfolding get values set_value without canonical_key all_token_bytes capitalise has_byte equal
get-open_header [] = refl
get-open_header (c ∷ auth) = refl

open_request-is_well_formed :
    (c : Client) (addr host : Bytes) (port : ℕ)
    → is_nil c.proxy ≡ false
    → is_well_formed (open_request c addr host port) (open_url host port) ≡ true
unfolding is_well_formed open_request open_url equal_fold is_connect_udp_request equal
open_request-is_well_formed c addr host port h =
    ground (arith, h, equal_refl (to_lower c.proxy), get-open_header c.auth)

module _ (text : IpText) (to_ascii : Bytes → Option Bytes) where
  -- The server's parser reads back, from the request that the client's `open` sends, the host and the
  -- port that it was called with: with or without credentials, for every host of bytes other than
  -- slash, backslash, percent sign, at sign and square brackets whose canonical form exists, and every
  -- port from 1 to 65535. The host is in its canonical form.
  pub parse_connect_udp_target-open_request :
      (c : Client) (addr host name : Bytes) (port : ℕ)
      → is_nil c.proxy ≡ false
      → IsHost host
      → canonical_host text to_ascii host ≡ some name
      → 0 < port
      → port ≤ 65535
      → parse_connect_udp_target text to_ascii
          (open_request c addr host port)
          (some (open_url host port))
        ≡ some
            (record { host = name; port = itoa port; host_port = join_host_port name (itoa port) })
  unfolding open_url request_path
  parse_connect_udp_target-open_request c addr host name port h v e lo hi =
      parse_connect_udp_target-escaped text to_ascii (open_request c addr host port)
        (open_url host port) host name port (open_request-is_well_formed c addr host port h) refl v
        e lo hi
