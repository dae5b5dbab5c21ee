-- ===== src/Upstream/Client/Outcomes.antt =====
-- What `DialContext` returns: when it has a connection, what becomes of one that it does not return,
-- and where an error is lost.
use forwardproxy.Base.{
  ℕ, Bool, true, false, ◌||◌, List, [], ◌∷◌, Option, none, some, Bytes, codes, equal, ◌==◌, ==_iff,
  ◌≡◌, inl, inr, refl, ap, ◌∙◌, arith, Bool-cases, is_nil,
}
use forwardproxy.Serve.Headers.{Header}
use forwardproxy.Upstream.Client.{
  ClientError, Conn, Dialer, Exchange, Network, Out, RawDial, answered, cache_out, close_and_return,
  connect_http1, connect_http2, dial_anew, dial_by_scheme, dial_context, dial_fails, dialled, fails,
  h2_conn, on_cached, on_h2, on_raw, on_scheme, raw_conn, refuse, request_header, retry, status,
  written, usable,
}

abbrev pub has_conn : ℕ → List ℕ → Bool
has_conn x [] = false
has_conn x (c ∷ cs) = c == x || has_conn x cs

abbrev pub raw_of : Conn → ℕ
raw_of (raw_conn raw) = raw
raw_of (h2_conn raw) = raw

module _ {E : Type 0} (net : Network E) (address : Bytes) (header : Header) where
  -- The proxy has answered 200 to the CONNECT request for this address with this header.
  pub data Established : Conn → Type 0 where
    over_http1 :
        {raw : ℕ}
        → net.write_request raw address header ≡ none
        → net.read_response raw ≡ status 200
        → Established (raw_conn raw)
    over_http2 :
        {raw client : ℕ}
        → net.round_trip client address header ≡ status 200
        → Established (h2_conn raw)

  -- A connection is established, and comes with no error.
  abbrev pub Sound : Option Conn → Option (ClientError E) → Type 0
  Sound none err = Unit
  Sound (some c) none = Established c
  Sound (some c) (some e) = ⊥

  -- The call returns `raw`, established, with no error; or it has closed it.
  abbrev pub Settled : ℕ → Option Conn → Option (ClientError E) → List ℕ → Type 0
  Settled raw none err closed = has_conn raw closed ≡ true
  Settled raw (some c) none closed = Established c × (raw_of c ≡ raw)
  Settled raw (some c) (some e) closed = ⊥

  abbrev pub IsSettled : ℕ → Out E → Type 0
  IsSettled raw out = Settled raw out.conn out.err out.closed

  Settled-Sound :
      (raw : ℕ) (conn : Option Conn) (err : Option (ClientError E)) (closed : List ℕ)
      → Settled raw conn err closed
      → Sound conn err
  Settled-Sound raw none err closed h = tt
  Settled-Sound raw (some c) none closed h = h.0
  Settled-Sound raw (some c) (some e) closed h = absurd h

  has_conn-head : (raw : ℕ) (closed : List ℕ) → has_conn raw (raw ∷ closed) ≡ true
  has_conn-head raw closed = ground (arith, ==_iff raw raw)

  closed-IsSettled :
      (raw : ℕ) (cached : Option (ℕ × ℕ)) (closed : List ℕ)
      → IsSettled raw (close_and_return net raw cached closed)
  unfolding close_and_return
  closed-IsSettled raw cached closed = has_conn-head raw closed

  answered-IsSettled :
      (k : Conn) (raw : ℕ) (cached : Option (ℕ × ℕ)) (closed : List ℕ) (x : Exchange E)
      → raw_of k ≡ raw
      → (x ≡ status 200 → Established k)
      → IsSettled raw (answered net k raw cached closed x)
  unfolding answered refuse
  answered-IsSettled k raw cached closed (fails e) r h = closed-IsSettled raw cached closed
  answered-IsSettled k raw cached closed (status n) r h = elim (Bool-cases (n == 200)) [
    | inl e ↦ rw e (h (ap (λ m. status m) ((==_iff n 200).0 e)), r)
    | inr e ↦ rw e (has_conn-head raw closed)
  ]

  pub connect_http2-IsSettled :
      (raw client : ℕ) (cached : Option (ℕ × ℕ)) (closed : List ℕ)
      → IsSettled raw (connect_http2 net raw client address header cached closed)
  unfolding connect_http2
  connect_http2-IsSettled raw client cached closed =
      answered-IsSettled (h2_conn raw) raw cached closed (net.round_trip client address header) refl
        λ ok. over_http2 ok

  written-IsSettled :
      (raw : ℕ) (cached : Option (ℕ × ℕ)) (closed : List ℕ) (w : Option E)
      → net.write_request raw address header ≡ w
      → IsSettled raw (written net raw cached closed w)
  unfolding written
  written-IsSettled raw cached closed (some e) q = closed-IsSettled raw cached closed
  written-IsSettled raw cached closed none q =
      answered-IsSettled (raw_conn raw) raw cached closed (net.read_response raw) refl
        λ ok. over_http1 q ok

  cache_out-IsSettled :
      (reuse : Bool) (raw client : ℕ) (out : Out E) (err : Option (ClientError E))
      → out.err ≡ err
      → IsSettled raw out
      → IsSettled raw (cache_out net reuse raw client out err)
  unfolding cache_out
  cache_out-IsSettled reuse raw client out (some e) q h = closed-IsSettled raw out.cached out.closed
  cache_out-IsSettled true raw client out none q h = h
  cache_out-IsSettled false raw client out none q h = h

  on_h2-IsSettled :
      (reuse : Bool) (raw : ℕ) (cached : Option (ℕ × ℕ)) (closed : List ℕ) (made : ℕ × Option E)
      → IsSettled raw (on_h2 net reuse raw address header cached closed made)
  unfolding on_h2 connect_http2
  on_h2-IsSettled reuse raw cached closed (client, some e) = closed-IsSettled raw cached closed
  on_h2-IsSettled reuse raw cached closed (client, none) =
      cache_out-IsSettled reuse raw client _ _ refl
        (connect_http2-IsSettled raw client cached closed)

  pub on_raw-IsSettled :
      (reuse : Bool) (cached : Option (ℕ × ℕ)) (closed : List ℕ) (raw : ℕ) (protocol : Bytes)
      → IsSettled raw (on_raw net reuse address header cached closed (dialled raw protocol))
  unfolding on_raw connect_http1 refuse
  on_raw-IsSettled reuse cached closed raw protocol =
      elim (Bool-cases (is_nil protocol || equal protocol (codes "http/1.1"))) [
        | inl e ↦ rw e (written-IsSettled raw cached closed _ refl)
        | inr e ↦ elim (Bool-cases (equal protocol (codes "h2"))) [
          | inl h2 ↦ rw (e, h2) (on_h2-IsSettled reuse raw cached closed (net.new_client_conn raw))
          | inr other ↦ rw (e, other) (has_conn-head raw closed)
        ]
      ]

  on_raw-Sound :
      (reuse : Bool) (cached : Option (ℕ × ℕ)) (closed : List ℕ) (d : RawDial E)
      → let out = on_raw net reuse address header cached closed d in Sound out.conn out.err
  unfolding on_raw
  on_raw-Sound reuse cached closed (dialled raw protocol) =
      Settled-Sound raw _ _ _ (on_raw-IsSettled reuse cached closed raw protocol)
  on_raw-Sound reuse cached closed (dial_fails e) = tt

  on_scheme-Sound :
      (d : Dialer) (closed : List ℕ) (r : Option (RawDial E))
      → let out = on_scheme net d address header closed r in Sound out.conn out.err
  unfolding on_scheme
  on_scheme-Sound d closed none = tt
  on_scheme-Sound d closed (some dial) = on_raw-Sound d.enable_h2_conn_reuse d.cached closed dial

  dial_anew-Sound :
      (d : Dialer) (closed : List ℕ)
      → let out = dial_anew net d address header closed in Sound out.conn out.err
  unfolding dial_anew
  dial_anew-Sound d closed = on_scheme-Sound d closed (dial_by_scheme net d.proxy_url)

  pub dial_anew-IsSettled :
      (d : Dialer) (closed : List ℕ) (raw : ℕ) (protocol : Bytes)
      → dial_by_scheme net d.proxy_url ≡ some (dialled raw protocol)
      → IsSettled raw (dial_anew net d address header closed)
  unfolding dial_anew on_scheme
  dial_anew-IsSettled d closed raw protocol e =
      rw (e, dial_anew) (on_raw-IsSettled d.enable_h2_conn_reuse d.cached closed raw protocol)

  retry-Sound :
      (d : Dialer) (out : Out E) (err : Option (ClientError E))
      → out.err ≡ err
      → Sound out.conn out.err
      → let again = retry net d address header out err in Sound again.conn again.err
  unfolding retry
  retry-Sound d out none q h = h
  retry-Sound d out (some e) q h = dial_anew-Sound d out.closed

  on_cached-Sound :
      (d : Dialer) (cached : Option (ℕ × ℕ))
      → let out = on_cached net d address header cached in Sound out.conn out.err
  unfolding on_cached connect_http2
  on_cached-Sound d none = dial_anew-Sound d []
  on_cached-Sound d (some (raw, client)) = elim (Bool-cases (net.can_take_new_request client)) [
    | inl e ↦ rw e (
        retry-Sound d _ _ refl
          (Settled-Sound raw _ _ _ (connect_http2-IsSettled raw client d.cached [])))
    | inr e ↦ rw e (dial_anew-Sound d [])
  ]

module _ {E : Type 0} (net : Network E) (d : Dialer) (context : Option Header)
    (address : Bytes) where
  abbrev pub sent_header : Header
  sent_header = request_header d.default_header context

  -- A connection that `DialContext` returns comes with no error, and over it the proxy has answered
  -- 200 to the CONNECT request for this address with the merged header; over the cached client as
  -- over a new connection.
  pub dial_context-Sound :
      let out = dial_context net d context address in Sound net address sent_header out.conn out.err
  unfolding dial_context
  dial_context-Sound =
      on_cached-Sound net address sent_header d (usable d.enable_h2_conn_reuse d.cached)

  uncached : (reuse : Bool) (cached : Option (ℕ × ℕ)) → cached ≡ none → usable reuse cached ≡ none
  uncached true cached c = c
  uncached false cached c = refl

  dials_anew :
      d.cached ≡ none → dial_context net d context address ≡ dial_anew net d address sent_header []
  unfolding dial_context on_cached
  dials_anew c =
      ap (λ o. on_cached net d address sent_header o) (uncached d.enable_h2_conn_reuse d.cached c)

  -- What is left of a failed request where the close succeeds.
  abbrev lost : ℕ → Option (ℕ × ℕ) → Out E
  lost raw cached = record { conn = none; err = none; cached = cached; closed = raw ∷ [] }

  connect_http2-lost :
      (raw client : ℕ) (e : E) (cached : Option (ℕ × ℕ))
      → net.round_trip client address sent_header ≡ fails e
      → net.close raw [] ≡ none
      → connect_http2 net raw client address sent_header cached [] ≡ lost raw cached
  unfolding connect_http2 answered close_and_return
  connect_http2-lost raw client e cached t k = ground (arith, t, k)

  -- Over a new HTTP/2 connection a request that fails is reported as no error where the close of the
  -- connection succeeds: the call returns no connection and no error, and caches what it has closed.
  pub dial_context-loses_error :
      (raw client : ℕ) (e : E)
      → d.cached ≡ none
      → d.enable_h2_conn_reuse ≡ true
      → dial_by_scheme net d.proxy_url ≡ some (dialled raw (codes "h2"))
      → net.new_client_conn raw ≡ (client, none)
      → net.round_trip client address sent_header ≡ fails e
      → net.close raw [] ≡ none
      → dial_context net d context address
        ≡ record { conn = none; err = none; cached = some (raw, client); closed = raw ∷ [] }
  unfolding dial_anew on_scheme on_raw on_h2 cache_out equal
  dial_context-loses_error raw client e c r s n t k =
      dials_anew c
      ∙ ap (λ o. on_scheme net d address sent_header [] o) s
      ∙ ap (λ m. on_h2 net d.enable_h2_conn_reuse raw address sent_header d.cached [] m) n
      ∙ ap (λ (o : Out E). cache_out net d.enable_h2_conn_reuse raw client o o.err)
          (connect_http2-lost raw client e d.cached t k)
      ∙ ap (λ b. cache_out net b raw client (lost raw d.cached) none) r
