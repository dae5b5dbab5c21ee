-- ===== src/Upstream/Client/Settled.antt =====
-- What becomes of the connections of a call of `DialContext`, with a cached client or without.
use forwardproxy.Base.{
  ℕ, Bool, true, false, ◌||◌, List, [], ◌∷◌, Option, none, some, Bytes, codes, equal, ◌==◌, ◌≡◌,
  ◌⊎◌, inl, inr, refl, sym, ap, ◌∙◌, arith, Bool-cases, Option-cases, is_nil,
}
use forwardproxy.Serve.Headers.{Header}
use forwardproxy.Upstream.Client.Outcomes.{
  IsSettled, Settled, connect_http2-IsSettled, dial_anew-IsSettled, has_conn, sent_header,
}
use forwardproxy.Upstream.Client.{
  ClientError, Conn, Dialer, Exchange, Network, Out, answered, cache_out, close_and_return,
  connect_http1, connect_http2, dial_anew, dial_by_scheme, dial_context, dialled, fails, h2_conn,
  on_cached, on_h2, on_raw, on_scheme, raw_conn, refuse, retry, status, usable, written,
}

-- What is closed stays closed.
module _ {E : Type 0} (net : Network E) (address : Bytes) (header : Header) (x : ℕ) where
  abbrev Keeps : List ℕ → Out E → Type 0
  Keeps closed out = has_conn x closed ≡ true → has_conn x out.closed ≡ true

  has_conn-tail :
      (raw : ℕ) (closed : List ℕ) → has_conn x closed ≡ true → has_conn x (raw ∷ closed) ≡ true
  has_conn-tail raw closed h = ground (arith, h)

  close_and_return-Keeps :
      (raw : ℕ) (cached : Option (ℕ × ℕ)) (closed : List ℕ)
      → Keeps closed (close_and_return net raw cached closed)
  unfolding close_and_return
  close_and_return-Keeps raw cached closed = has_conn-tail raw closed

  answered-Keeps :
      (k : Conn) (raw : ℕ) (cached : Option (ℕ × ℕ)) (closed : List ℕ) (e : Exchange E)
      → Keeps closed (answered net k raw cached closed e)
  unfolding answered refuse
  answered-Keeps k raw cached closed (fails e) h = close_and_return-Keeps raw cached closed h
  answered-Keeps k raw cached closed (status n) h = elim (Bool-cases (n == 200)) [
    | inl e ↦ rw e h
    | inr e ↦ rw e (has_conn-tail raw closed h)
  ]

  written-Keeps :
      (raw : ℕ) (cached : Option (ℕ × ℕ)) (closed : List ℕ) (w : Option E)
      → Keeps closed (written net raw cached closed w)
  unfolding written
  written-Keeps raw cached closed (some e) = close_and_return-Keeps raw cached closed
  written-Keeps raw cached closed none =
      answered-Keeps (raw_conn raw) raw cached closed (net.read_response raw)

  cache_out-Keeps :
      (reuse : Bool) (raw client : ℕ) (out : Out E) (err : Option (ClientError E))
      → Keeps out.closed (cache_out net reuse raw client out err)
  unfolding cache_out
  cache_out-Keeps reuse raw client out (some e) h =
      close_and_return-Keeps raw out.cached out.closed h
  cache_out-Keeps true raw client out none h = h
  cache_out-Keeps false raw client out none h = h

  on_h2-Keeps :
      (reuse : Bool) (raw : ℕ) (cached : Option (ℕ × ℕ)) (closed : List ℕ) (made : ℕ × Option E)
      → Keeps closed (on_h2 net reuse raw address header cached closed made)
  unfolding on_h2 connect_http2
  on_h2-Keeps reuse raw cached closed (client, some e) h =
      close_and_return-Keeps raw cached closed h
  on_h2-Keeps reuse raw cached closed (client, none) h =
      let round = net.round_trip client address header in
      let out = answered net (h2_conn raw) raw cached closed round in
      cache_out-Keeps reuse raw client out out.err
        (answered-Keeps (h2_conn raw) raw cached closed round h)

  on_raw-Keeps :
      (reuse : Bool) (cached : Option (ℕ × ℕ)) (closed : List ℕ) (raw : ℕ) (protocol : Bytes)
      → Keeps closed (on_raw net reuse address header cached closed (dialled raw protocol))
  unfolding on_raw connect_http1 refuse
  on_raw-Keeps reuse cached closed raw protocol h =
      elim (Bool-cases (is_nil protocol || equal protocol (codes "http/1.1"))) [
        | inl e ↦ rw e (written-Keeps raw cached closed _ h)
        | inr e ↦ elim (Bool-cases (equal protocol (codes "h2"))) [
          | inl h2 ↦ rw (e, h2) (on_h2-Keeps reuse raw cached closed (net.new_client_conn raw) h)
          | inr other ↦ rw (e, other) (has_conn-tail raw closed h)
        ]
      ]

  dial_anew-Keeps :
      (d : Dialer) (closed : List ℕ) (raw : ℕ) (protocol : Bytes)
      → dial_by_scheme net d.proxy_url ≡ some (dialled raw protocol)
      → Keeps closed (dial_anew net d address header closed)
  unfolding dial_anew on_scheme
  dial_anew-Keeps d closed raw protocol e =
      rw (e, dial_anew) (on_raw-Keeps d.enable_h2_conn_reuse d.cached closed raw protocol)

module _ {E : Type 0} (net : Network E) (d : Dialer) (context : Option Header)
    (address : Bytes) where
  abbrev sent : Header
  sent = sent_header net d context address

  abbrev result : Out E
  result = dial_context net d context address

  -- The cached client takes requests, and the call is its exchange, which has ended with no error.
  pub record Reused : Type 0 where
    pub raw : ℕ
    pub client : ℕ
    pub cached : usable d.enable_h2_conn_reuse d.cached ≡ some (raw, client)
    pub takes : net.can_take_new_request client ≡ true
    pub is_exchange : result ≡ connect_http2 net raw client address sent d.cached []
    pub no_error : result.err ≡ none
    pub settled : IsSettled net address sent raw result

  -- The call has settled the connection `raw` that it dials, and has closed the cached one if it had
  -- tried that before.
  pub record Redialled (raw : ℕ) : Type 0 where
    pub settled : IsSettled net address sent raw result
    pub closes_cached :
        (cached client : ℕ)
        → usable d.enable_h2_conn_reuse d.cached ≡ some (cached, client)
        → net.can_take_new_request client ≡ true
        → has_conn cached result.closed ≡ true

  redialled :
      (raw : ℕ) (protocol : Bytes) (closed : List ℕ)
      → dial_by_scheme net d.proxy_url ≡ some (dialled raw protocol)
      → result ≡ dial_anew net d address sent closed
      → ((cached client : ℕ)
          → usable d.enable_h2_conn_reuse d.cached ≡ some (cached, client)
          → net.can_take_new_request client ≡ true
          → has_conn cached closed ≡ true)
      → Redialled raw
  redialled raw protocol closed e is h = record {
    settled = rw is (dial_anew-IsSettled net address sent d closed raw protocol e);
    closes_cached = λ cached client u t.
        ap (λ (o : Out E). has_conn cached o.closed) is
        ∙ dial_anew-Keeps net address sent cached d closed raw protocol e (h cached client u t);
  }

  over_cache :
      (o : Option (ℕ × ℕ))
      → usable d.enable_h2_conn_reuse d.cached ≡ o
      → result ≡ on_cached net d address sent o
  unfolding dial_context
  over_cache o u = ap (λ c. on_cached net d address sent c) u

  same_conn : (r r' c c' : ℕ) → ◌≡◌ {A = Option (ℕ × ℕ)} (some (r, c)) (some (r', c')) → r ≡ r'
  same_conn r r' c c' e = cc (e)

  failed_closes :
      (raw : ℕ) (conn : Option Conn) (err : Option (ClientError E)) (closed : List ℕ)
      (x : ClientError E)
      → Settled net address sent raw conn err closed
      → err ≡ some x
      → has_conn raw closed ≡ true
  failed_closes raw none err closed x h q = h
  failed_closes raw (some c) none closed x h q = absurd (cc (q))
  failed_closes raw (some c) (some e) closed x h q = absurd h

  settles :
      (o : Option (ℕ × ℕ))
      → usable d.enable_h2_conn_reuse d.cached ≡ o
      → (raw : ℕ) (protocol : Bytes) → dial_by_scheme net d.proxy_url ≡ some (dialled raw protocol)
      → Reused ⊎ Redialled raw
  unfolding on_cached retry
  settles none u raw protocol e =
      inr (redialled raw protocol [] e (over_cache none u) λ r c u' t. absurd (cc (u, u')))
  settles (some (cached, client)) u raw protocol e =
      let out = connect_http2 net cached client address sent d.cached [] in
      let of_out : IsSettled net address sent cached out =
        connect_http2-IsSettled net address sent cached client d.cached [] in
      elim (Bool-cases (net.can_take_new_request client)) [
        | inr busy ↦ inr (
            redialled raw protocol [] e (over_cache _ u ∙ rw busy refl)
              λ r c u' t. absurd (cc (u, u', t, busy)))
        | inl takes ↦ elim (Option-cases out.err) [
          | inl fine ↦
              let is : result ≡ out =
                over_cache _ u ∙ rw takes (ap (retry net d address sent out) fine) in
              inl (record {
                raw = cached;
                client = client;
                cached = u;
                takes = takes;
                is_exchange = is;
                no_error = ap (λ (o : Out E). o.err) is ∙ fine;
                settled = rw is of_out;
              })
          | inr (x, failed) ↦ inr (
              redialled raw protocol out.closed e
                (over_cache _ u ∙ rw takes (ap (retry net d address sent out) failed))
                λ r c u' t.
                  ap (λ y. has_conn y out.closed) (same_conn r cached c client (sym u' ∙ u))
                  ∙ failed_closes cached out.conn out.err out.closed x of_out failed)
        ]
      ]

  -- A call of `DialContext`, where dialling the proxy gives the connection `raw` with its handshake
  -- done: either it is the exchange over the cached client, with no error, and the cached connection is
  -- returned, established, or closed; or `raw` is returned, established and with no error, or closed,
  -- and so is the cached connection closed, if the cached client had taken the request and failed.
  pub dial_context-IsSettled :
      (raw : ℕ) (protocol : Bytes)
      → dial_by_scheme net d.proxy_url ≡ some (dialled raw protocol)
      → Reused ⊎ Redialled raw
  dial_context-IsSettled raw protocol e = settles _ refl raw protocol e
