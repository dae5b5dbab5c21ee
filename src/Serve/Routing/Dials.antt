-- ===== src/Serve/Routing/Dials.antt =====
-- Where the connection of a tunnel comes from.
use forwardproxy.Base.{Bool, true, false, Option, none, some, Bytes, codes, ◌≡◌, refl, arith}
use forwardproxy.Policy.{Prepared, admitted, rejected, prepare_target_policy}
use forwardproxy.Serve.Auth.{AuthError, Checked, accepts, rejects, panics}
use forwardproxy.Serve.Dialing.{
  Dialled, Raced, wins, connected, raced, dial_context_check_acl, dial_prepared,
}
use forwardproxy.Serve.Headers.{
  Header, Negotiated, unpadded, variant1, invalid_type, no_type, negotiate_naive_padding,
}
use forwardproxy.Serve.Requests.{Handler, Request, Served, hijacks, streams}
use forwardproxy.Serve.Rewriting.{context_header, or_else}
use forwardproxy.Serve.Routing.{
  Outside, serve_http, serve_checked, routed, admitted_request, on_negotiated, on_dial,
  connect_padded, plain_request, tunnel, finish, on_upstream, refused_auth,
}

-- The connection that a call has opened a tunnel over.
abbrev pub connection_of : {C : Type 0} → Served C → Option C
connection_of (hijacks c w) = some c
connection_of (streams c padded w) = some c
connection_of _ = none

module _ {C : Type 0} where
  raced-connected : (x : Raced C) (c : C) → raced x ≡ connected c → x ≡ wins c
  unfolding raced
  raced-connected x c e = ground arith

module _ {C : Type 0} (out : Outside C) (h : Handler) where
  abbrev dial_for : Request → Dialled C
  dial_for r =
      dial_context_check_acl (out.dial_context (context_header h r)) out.race h (codes "tcp")
        (or_else r.url_host r.host)

  connect_padded-connected :
      (r : Request) (w : Header) (padded : Bool) (c : C)
      → connection_of (connect_padded out h r w padded) ≡ some c
      → dial_for r ≡ connected c
  unfolding connect_padded on_dial tunnel
  connect_padded-connected r w padded c e = ground arith

  on_negotiated-connected :
      (r : Request) (w : Header) (n : Negotiated) (c : C)
      → connection_of (on_negotiated out h r w n) ≡ some c
      → dial_for r ≡ connected c
  unfolding on_negotiated
  on_negotiated-connected r w unpadded c e = connect_padded-connected r _ false c e
  on_negotiated-connected r w variant1 c e = connect_padded-connected r _ true c e
  on_negotiated-connected r w invalid_type c e = absurd (cc)
  on_negotiated-connected r w no_type c e = absurd (cc)

  plain_request-unconnected :
      (r : Request) (w : Header) → connection_of (plain_request out h r w) ≡ none
  unfolding plain_request on_upstream finish
  plain_request-unconnected r w = ground arith

  admitted_request-connected :
      (r : Request) (w : Header) (c : C)
      → connection_of (admitted_request out h r w) ≡ some c
      → dial_for r ≡ connected c
  unfolding admitted_request
  admitted_request-connected r w c e = ground (
    arith,
    on_negotiated-connected r w (negotiate_naive_padding r.header) c,
    plain_request-unconnected r w,
  )

  routed-connected :
      (r : Request) (w : Header) (auth : Option AuthError) (c : C)
      → connection_of (routed out h r w auth) ≡ some c
      → dial_for r ≡ connected c
  unfolding routed refused_auth
  routed-connected r w auth c e = ground (arith, admitted_request-connected r w c)

  serve_checked-connected :
      (r : Request) (w : Header) (auth : Checked) (c : C)
      → connection_of (serve_checked out h r w auth) ≡ some c
      → dial_for r ≡ connected c
  unfolding serve_checked
  serve_checked-connected r w panics c e = absurd (cc)
  serve_checked-connected r w (accepts user) c e = routed-connected r w none c e
  serve_checked-connected r w (rejects user x) c e = routed-connected r w (some x) c e

  dial_prepared-connected :
      (p : Prepared) (network : Bytes) (c : C)
      → dial_prepared out.race network p ≡ connected c
      → (host port : Bytes) × (p ≡ admitted host port) × (out.race network host port ≡ wins c)
  unfolding dial_prepared
  dial_prepared-connected (rejected kind) network c e = absurd (cc)
  dial_prepared-connected (admitted host port) network c e =
      (host, port, refl, raced-connected (out.race network host port) c e)

  -- With no upstream, every tunnel that `ServeHTTP` opens is over a connection that won the race for
  -- the request's own target, after the port policy and the hostname rules had admitted that target.
  pub serve_http-admitted :
      (r : Request) (w : Header) (c : C)
      → h.upstream ≡ none
      → connection_of (serve_http out h r w) ≡ some c
      → (host port : Bytes) × (prepare_target_policy h.rules (or_else r.url_host r.host)
          ≡ admitted host port)
        × (out.race (codes "tcp") host port ≡ wins c)
  unfolding serve_http dial_context_check_acl
  serve_http-admitted r w c direct e =
      dial_prepared-connected (prepare_target_policy h.rules (or_else r.url_host r.host))
        (codes "tcp") c (ground (arith, direct, serve_checked-connected r w _ c e))
