-- ===== src/Serve/Routing/Gate.antt =====
-- Who reaches the proxy's own work: the tunnels, the associations and the forwarded requests.
use forwardproxy.Base.{
  Bool, true, false, List, Option, some, Bytes, equal_iff, ◌≡◌, ◌≢◌, ◌⊎◌, inl, inr, refl, ap, ◌∙◌,
  arith,
}
use forwardproxy.Serve.Auth.Accepts.{is_accepted}
use forwardproxy.Serve.Auth.{AuthError, Checked, accepts, rejects, panics, check_credentials}
use forwardproxy.Serve.Headers.{Header}
use forwardproxy.Serve.Requests.{
  Handler, Request, Served, passed_on, associates, hijacks, streams, replies, crashes,
}
use forwardproxy.Serve.Routing.{
  Outside, serve_http, serve_checked, routed, refused_auth, checked, is_hidden_domain, req_host,
  should_serve_pac_file,
}

-- Whether a call has used the proxy: opened a tunnel or an association, or forwarded the request.
abbrev pub is_proxied : {C : Type 0} → Served C → Bool
is_proxied (associates r w) = true
is_proxied (hijacks c w) = true
is_proxied (streams c padded w) = true
is_proxied (replies response w) = true
is_proxied _ = false

Checked-cases :
    (c : Checked)
    → ((user : Bytes) × (c ≡ accepts user))
      ⊎ (((user : Option Bytes) × (e : AuthError) × (c ≡ rejects user e)) ⊎ (c ≡ panics))
Checked-cases (accepts user) = inl (user, refl)
Checked-cases (rejects user e) = inr (inl (user, e, refl))
Checked-cases panics = inr (inr refl)

module _ {C : Type 0} (out : Outside C) (h : Handler) where
  routed-rejected :
      (r : Request) (w : Header) (e : AuthError) → is_proxied (routed out h r w (some e)) ≡ false
  unfolding routed refused_auth
  routed-rejected r w e = ground arith

  serve_http-rejects :
      (r : Request) (w : Header) (configured : List Bytes) (user : Option Bytes) (e : AuthError)
      → h.auth_credentials ≡ some configured
      → check_credentials out.codec configured r.header ≡ rejects user e
      → serve_http out h r w ≡ routed out h r w (some e)
  unfolding serve_http serve_checked checked
  serve_http-rejects r w configured user e cs bad =
      ap (λ c. serve_checked out h r w c) (ap (λ a. checked out.codec a r.header) cs ∙ bad)

  serve_http-panics :
      (r : Request) (w : Header) (configured : List Bytes)
      → h.auth_credentials ≡ some configured
      → check_credentials out.codec configured r.header ≡ panics
      → serve_http out h r w ≡ crashes
  unfolding serve_http serve_checked checked
  serve_http-panics r w configured cs bad =
      ap (λ c. serve_checked out h r w c) (ap (λ a. checked out.codec a r.header) cs ∙ bad)

  -- Where credentials are configured, a request that uses the proxy has been accepted by
  -- `checkCredentials`, whatever its method, its host and the version of HTTP.
  pub serve_http-proxied :
      (r : Request) (w : Header) (configured : List Bytes)
      → h.auth_credentials ≡ some configured
      → is_proxied (serve_http out h r w) ≡ true
      → is_accepted out.codec (check_credentials out.codec configured r.header) ≡ true
  unfolding serve_http serve_checked checked
  serve_http-proxied r w configured cs used =
      elim (Checked-cases (check_credentials out.codec configured r.header)) [
        | inl (user, good) ↦ ap (λ c. is_accepted out.codec c) good
        | inr (inl (user, e, bad)) ↦ absurd (
            cc (
              used,
              ap (λ (x : Served C). is_proxied x) (serve_http-rejects r w configured user e cs bad),
              routed-rejected r w e,
            ))
        | inr (inr broken) ↦ absurd (
            cc (
              used,
              ap (λ (x : Served C). is_proxied x) (serve_http-panics r w configured cs broken),
            ))
      ]

  -- With probe resistance, a request that `checkCredentials` rejects, for another host than the
  -- secret one and not for the PAC file, goes to the next handler as it came, with nothing added to
  -- the response: the answer does not tell that a proxy is there.
  pub serve_http-probed :
      (r : Request) (w : Header) (configured : List Bytes) (domain : Bytes) (user : Option Bytes)
      (e : AuthError)
      → h.auth_credentials ≡ some configured
      → h.probe_resistance ≡ some domain
      → check_credentials out.codec configured r.header ≡ rejects user e
      → req_host r ≢ domain
      → should_serve_pac_file h r ≡ false
      → serve_http out h r w ≡ passed_on r
  unfolding serve_http checked routed refused_auth is_hidden_domain
  serve_http-probed r w configured domain user e cs probe bad other pac =
      serve_http-rejects r w configured user e cs bad
      ∙ ground (arith, probe, pac, other, equal_iff (req_host r) domain)
