-- ===== src/Setup/Provision/Limits.antt =====
-- forwardproxy.go: the limits and the times that `Provision` sets, and what probe resistance then
-- does for a request.
use mathlib.Core.Path.{subst}
use forwardproxy.Acl.{AclRule}
use forwardproxy.Base.{
  ℕ, zero, suc, ◌<◌, ℤ, pos, negsuc, false, not, ◌&&◌, List, [], ◌∷◌, Option, none, some, Bytes,
  codes, equal, ◌≡◌, ◌≢◌, inl, inr, refl, ap, ◌∙◌, arith, Bool-cases, Option-cases, if◌then◌else◌,
  ◌==◌,
}
use forwardproxy.Serve.Auth.{AuthError, check_credentials, rejects}
use forwardproxy.Serve.Headers.{Header}
use forwardproxy.Serve.Requests.{Request, passed_on}
use forwardproxy.Serve.Routing.Gate.{serve_http-probed}
use forwardproxy.Serve.Routing.{Outside, req_host, serve_http, should_serve_pac_file}
use forwardproxy.Setup.Caddyfile.{Config}
use forwardproxy.Setup.Provision.{
  Dials, ProxyDialer, Ready, Setting, Unexported, defaults, dials_through, handler_of, is_localhost,
  lacks_credentials, max_idle, provision, ready, set_dialer, set_rules, with_dialer, with_upstream,
}
use forwardproxy.Udp.Admission.{limit_or, global_limit, client_limit}
use forwardproxy.Upstream.Client.{ProxyUrl}
use forwardproxy.Setup.Provision.Safety.{Holds, Holds-unless, UsesTable, provision-IsSafe}

limit_or-positive : (n : ℤ) (default : ℕ) → 0 < default → 0 < limit_or n default
unfolding limit_or
limit_or-positive (pos zero) default h = h
limit_or-positive (pos (suc n)) default h = omega arith
limit_or-positive (negsuc n) default h = h

-- `n` where it is positive, and otherwise the default.
abbrev pub given_or : ℤ → ℕ → ℕ
given_or (pos n) default = if n == 0 then default else n
given_or (negsuc n) default = default

limit_or-given : (n : ℤ) (default : ℕ) → limit_or n default ≡ given_or n default
unfolding limit_or
limit_or-given (pos zero) default = refl
limit_or-given (pos (suc n)) default = ground arith
limit_or-given (negsuc n) default = refl

limit_or-twice :
    (n : ℤ) (default : ℕ) → limit_or (pos (limit_or n default)) default ≡ limit_or n default
unfolding limit_or
limit_or-twice (pos zero) zero = refl
limit_or-twice (pos zero) (suc d) = refl
limit_or-twice (pos (suc n)) default = refl
limit_or-twice (negsuc n) zero = refl
limit_or-twice (negsuc n) (suc d) = refl

pub record IsLimited (c : Config) (f : Unexported) (r : Ready) : Type 0 where
  pub global : global_limit r.limiter ≡ given_or f.max_active 512
  pub client : client_limit r.limiter ≡ given_or f.max_client_active 128
  pub some_active : 0 < global_limit r.limiter
  pub some_client_active : 0 < client_limit r.limiter
  pub none_active : r.limiter.active ≡ 0
  pub idle : 0 < r.idle_timeout
  pub dial : 0 < r.dial_timeout
  -- No limit only where a negative number asks for it.
  pub transport : r.transport_max_idle ≡ 0 → ((n : ℕ) × (c.max_idle_conns ≡ negsuc n))

max_idle-zero : (n : ℤ) → max_idle n ≡ 0 → (m : ℕ) × (n ≡ negsuc m)
unfolding max_idle
max_idle-zero (pos zero) h = absurd (cc)
max_idle-zero (pos (suc n)) h = absurd (omega arith)
max_idle-zero (negsuc n) h = (n, refl)

module _ (s : Setting) where
  defaults-IsLimited :
      (c : Config) (f : Unexported) (rules : List AclRule) → IsLimited c f (defaults c f rules)
  unfolding defaults
  defaults-IsLimited c f rules = record {
    global = limit_or-twice f.max_active 512 ∙ limit_or-given f.max_active 512;
    client = limit_or-twice f.max_client_active 128 ∙ limit_or-given f.max_client_active 128;
    some_active =
        rw (limit_or-twice f.max_active 512) (limit_or-positive f.max_active 512 (omega arith));
    some_client_active =
        rw (limit_or-twice f.max_client_active 128)
          (limit_or-positive f.max_client_active 128 (omega arith));
    none_active = refl;
    idle = limit_or-positive f.idle_timeout _ (omega arith);
    dial = limit_or-positive c.dial_timeout _ (omega arith);
    transport = max_idle-zero c.max_idle_conns;
  }

  redialled-IsLimited :
      (c : Config) (f : Unexported) (r : Ready) (u : Option ProxyUrl) (d : Dials)
      → IsLimited c f r
      → IsLimited c f (record r { upstream = u; dials = d })
  redialled-IsLimited c f r u d h = record {
    global = h.global;
    client = h.client;
    some_active = h.some_active;
    some_client_active = h.some_client_active;
    none_active = h.none_active;
    idle = h.idle;
    dial = h.dial;
    transport = h.transport;
  }

  with_dialer-IsLimited :
      (c : Config) (f : Unexported) (r : Ready) (u : ProxyUrl) (made : Option ProxyDialer)
      → IsLimited c f r
      → Holds s (IsLimited c f) (with_dialer s (record r { upstream = some u }) made)
  unfolding with_dialer
  with_dialer-IsLimited c f r u none h = tt
  with_dialer-IsLimited c f r u (some d) h = redialled-IsLimited c f r (some u) (dials_through d) h

  with_upstream-IsLimited :
      (c : Config) (f : Unexported) (r : Ready) (u : Option ProxyUrl)
      → IsLimited c f r
      → Holds s (IsLimited c f) (with_upstream s r u)
  unfolding with_upstream
  with_upstream-IsLimited c f r none h = tt
  with_upstream-IsLimited c f r (some u) h =
      elim (Bool-cases (
        not r.config.disable_insecure_upstreams_check
        && not (is_localhost (s.hostname u))
        && not (equal u.scheme (codes "https")))) [
          | inl e ↦ rw e tt
          | inr e ↦ rw e (with_dialer-IsLimited c f r u _ h)
        ]

  set_dialer-IsLimited :
      (c : Config) (f : Unexported) (r : Ready) (upstream : Bytes)
      → IsLimited c f r
      → Holds s (IsLimited c f) (set_dialer s r upstream)
  unfolding set_dialer
  set_dialer-IsLimited c f r [] h = h
  set_dialer-IsLimited c f r (x ∷ upstream) h = with_upstream-IsLimited c f r _ h

  set_rules-IsLimited :
      (c : Config) (f : Unexported) (rules : Option (List AclRule))
      → Holds s (IsLimited c f) (set_rules s c f rules)
  unfolding set_rules
  set_rules-IsLimited c f none = tt
  set_rules-IsLimited c f (some rules) =
      elim (Bool-cases (lacks_credentials c.probe_resistance c.auth_credentials)) [
        | inl l ↦ rw l tt
        | inr l ↦ rw l (
            set_dialer-IsLimited c f (defaults c f rules) c.upstream (defaults-IsLimited c f rules))
      ]

  provision-Limited : (c : Config) (f : Unexported) → Holds s (IsLimited c f) (provision s c f)
  unfolding provision
  provision-Limited c f = Holds-unless s _ s.metrics_fail _ _ (set_rules-IsLimited c f _)

  -- A handler that `Provision` sets up admits at most the given number of associations, in all and
  -- for a client, or 512 and 128 where none or a number that is not positive is given; it starts with
  -- no association; its limits and its times are positive; and its transport keeps idle connections
  -- without limit only where a negative number is configured.
  pub provision-IsLimited :
      (c : Config) (f : Unexported) (r : Ready) → provision s c f ≡ ready r → IsLimited c f r
  provision-IsLimited c f r e = subst (λ out. Holds s (IsLimited c f) out) e (provision-Limited c f)

  -- With probe resistance, a handler that `Provision` sets up passes on, as it came, each request that
  -- `checkCredentials` rejects with whatever credentials are configured, unless it is for the secret
  -- host or the PAC file: no configuration that is accepted leaves the proxy open to probing.
  pub provision-probed :
      {C : Type 0} (out : Outside C) (c : Config) (f : Unexported) (r : Ready) (domain : Bytes)
      (request : Request) (w : Header)
      → UsesTable s
      → provision s c f ≡ ready r
      → c.probe_resistance ≡ some domain
      → ((configured : List Bytes)
          → c.auth_credentials ≡ some configured
          → (user : Option Bytes) × (e : AuthError) × (check_credentials out.codec configured
                request.header
              ≡ rejects user e))
      → req_host request ≢ domain
      → should_serve_pac_file (handler_of s r) request ≡ false
      → serve_http out (handler_of s r) request w ≡ passed_on request
  provision-probed out c f r domain request w table e p rejected other pac =
      let safe = provision-IsSafe s c f r table e in
      elim (Option-cases c.auth_credentials) [
        | inl n ↦ absurd (safe.guarded (λ q. absurd (cc (p, q))) n)
        | inr (configured, a) ↦
            let (user, x, bad) = rejected configured a in
            serve_http-probed out (handler_of s r) request w configured domain user x
              (ap (λ (k : Config). k.auth_credentials) safe.same_config ∙ a)
              (ap (λ (k : Config). k.probe_resistance) safe.same_config ∙ p) bad other pac
      ]
