-- ===== src/Setup/Provision/Safety.antt =====
-- forwardproxy.go: what holds of a handler that `Provision` has set up.
use mathlib.Core.Path.{subst}
use forwardproxy.Acl.{AclRule, provision_rules}
use forwardproxy.Base.{
  Bool, true, false, not, ◌&&◌, ◌||◌, List, [], ◌∷◌, Option, none, some, Bytes, codes, equal, ◌≡◌,
  ◌≢◌, inl, inr, refl, sym, ap, ◌∙◌, arith, Bool-cases, if◌then◌else◌,
}
use forwardproxy.Setup.Caddyfile.{Config}
use forwardproxy.Setup.Provision.{
  Dials, ProvisionError, Provisioned, ProxyDialer, Ready, Setting, Unexported, connects, defaults,
  dials_through, direct, foreign, in_context, is_localhost, lacks_credentials, made, provision,
  ready, refuses, register_http_dialer, set_dialer, set_rules, with_dialer, with_upstream,
}
use forwardproxy.Upstream.Client.{
  Dialer, NewDialer, ProxyUrl, new, refused, new_http_connect_dialer,
}

-- The upstream's scheme is `https`, or the upstream is local, or the check is turned off.
abbrev pub allows_upstream : Setting → Config → ProxyUrl → Bool
allows_upstream s c u =
    c.disable_insecure_upstreams_check
    || is_localhost (s.hostname u)
    || equal u.scheme (codes "https")

de_morgan : (a b c : Bool) → (not a && not b && not c) ≡ false → (a || b || c) ≡ true
de_morgan a b c h = ground arith

allowed-unless :
    (s : Setting) (c d : Config) (u : ProxyUrl)
    → c ≡ d
    → (not c.disable_insecure_upstreams_check
        && not (is_localhost (s.hostname u))
        && not (equal u.scheme (codes "https")))
      ≡ false
    → allows_upstream s d u ≡ true
allowed-unless s c d u e h =
    ap (λ (x : Config). allows_upstream s x u) (sym e)
    ∙ de_morgan c.disable_insecure_upstreams_check (is_localhost (s.hostname u))
        (equal u.scheme (codes "https")) h

-- What a dialer to an upstream may be: the client of httpclient.go verifies certificates, except of a
-- local upstream with the scheme `https`.
abbrev pub Verifies : Setting → Option ProxyUrl → Dials → Type 0
Verifies s (some u) (in_context (connects d true)) =
    (is_localhost (s.hostname u) && equal u.scheme (codes "https")) ≡ true
Verifies s none (in_context (connects d true)) = ⊥
Verifies s u _ = Unit

abbrev pub Upstreamed : Setting → Config → Option ProxyUrl → Dials → Type 0
Upstreamed s c none dials = (c.upstream ≡ []) × (dials ≡ direct)
Upstreamed s c (some u) dials =
    (s.parse c.upstream ≡ some u) × (allows_upstream s c u ≡ true) × (dials ≢ direct)

pub record IsSafe (s : Setting) (c : Config) (r : Ready) : Type 0 where
  pub same_config : r.config ≡ c
  pub rules : provision_rules s.text c.acl ≡ some r.rules
  pub guarded : c.probe_resistance ≢ none → c.auth_credentials ≢ none
  pub upstreamed : Upstreamed s c r.upstream r.dials
  pub verifies : Verifies s r.upstream r.dials

-- `proxy.FromURL` makes a client of httpclient.go only by what is registered, for the same address.
abbrev pub UsesTable : Setting → Type 0
UsesTable s =
    (u : ProxyUrl) (f : ProxyUrl → Option ProxyDialer) (d : Dialer) (skips : Bool)
    → s.from_url u f ≡ some (connects d skips)
    → f u ≡ some (connects d skips)

module _ (s : Setting) where
  abbrev pub Holds : (Ready → Type 0) → Provisioned → Type 0
  Holds P (ready r) = P r
  Holds P (refuses e) = Unit

  pub Holds-unless :
      (P : Ready → Type 0) (b : Bool) (e : ProvisionError) (x : Provisioned)
      → Holds P x
      → Holds P (if b then refuses e else x)
  Holds-unless P true e x h = tt
  Holds-unless P false e x h = h

  made-skips :
      (u : ProxyUrl) (n : NewDialer) (d : Dialer)
      → made s u n ≡ some (connects d true)
      → (is_localhost (s.hostname u) && equal u.scheme (codes "https")) ≡ true
  unfolding made
  made-skips u (refused e) d h = absurd (cc)
  made-skips u (new d') d h = cc

  register-skips :
      (u given : ProxyUrl) (d : Dialer) (v : Option ProxyUrl)
      → s.parse_printed u ≡ v
      → register_http_dialer s u given ≡ some (connects d true)
      → (is_localhost (s.hostname u) && equal u.scheme (codes "https")) ≡ true
  unfolding register_http_dialer
  register-skips u given d none e h = absurd (cc (rw (e, register_http_dialer) at h))
  register-skips u given d (some v) e h =
      made-skips u (new_http_connect_dialer s.codec v) d (rw (e, register_http_dialer) at h)

  dials_through-direct : (d : ProxyDialer) → dials_through d ≢ direct
  unfolding dials_through
  dials_through-direct (connects d skips) h = absurd (cc)
  dials_through-direct (foreign true) h = absurd (cc)
  dials_through-direct (foreign false) h = absurd (cc)

  dials_through-Verifies :
      (u : ProxyUrl) (d : ProxyDialer)
      → UsesTable s
      → s.from_url u (register_http_dialer s u) ≡ some d
      → Verifies s (some u) (dials_through d)
  unfolding dials_through
  dials_through-Verifies u (foreign true) t h = tt
  dials_through-Verifies u (foreign false) t h = tt
  dials_through-Verifies u (connects d false) t h = tt
  dials_through-Verifies u (connects d true) t h =
      register-skips u u d _ refl (t u (register_http_dialer s u) d true h)

  -- What the handler has before its dialer is set.
  abbrev IsBase : Config → Ready → Type 0
  IsBase c r =
      (r.config ≡ c)
      × (provision_rules s.text c.acl ≡ some r.rules)
      × (c.probe_resistance ≢ none → c.auth_credentials ≢ none)

  with_dialer-IsSafe :
      (c : Config) (r : Ready) (u : ProxyUrl) (made : Option ProxyDialer)
      → UsesTable s
      → IsBase c r
      → s.parse c.upstream ≡ some u
      → allows_upstream s c u ≡ true
      → r.upstream ≡ some u
      → s.from_url u (register_http_dialer s u) ≡ made
      → Holds (IsSafe s c) (with_dialer s r made)
  unfolding with_dialer
  with_dialer-IsSafe c r u none t b p a q m = tt
  with_dialer-IsSafe c r u (some d) t b p a q m = record {
    same_config = b.0;
    rules = b.1;
    guarded = b.2;
    upstreamed = rw q (p, a, dials_through-direct d);
    verifies = rw q (dials_through-Verifies u d t m);
  }

  with_upstream-IsSafe :
      (c : Config) (r : Ready) (u : Option ProxyUrl)
      → UsesTable s
      → IsBase c r
      → s.parse c.upstream ≡ u
      → Holds (IsSafe s c) (with_upstream s r u)
  unfolding with_upstream
  with_upstream-IsSafe c r none t b p = tt
  with_upstream-IsSafe c r (some u) t b p =
      elim (Bool-cases (
        not r.config.disable_insecure_upstreams_check
        && not (is_localhost (s.hostname u))
        && not (equal u.scheme (codes "https")))) [
          | inl e ↦ rw e tt
          | inr e ↦ rw e (
              with_dialer-IsSafe c (record r { upstream = some u }) u _ t b p
                (allowed-unless s r.config c u b.0 e) refl refl)
        ]

  set_dialer-IsSafe :
      (c : Config) (r : Ready) (upstream : Bytes)
      → UsesTable s
      → IsBase c r
      → r.dials ≡ direct
      → r.upstream ≡ none
      → c.upstream ≡ upstream
      → Holds (IsSafe s c) (set_dialer s r upstream)
  unfolding set_dialer
  set_dialer-IsSafe c r [] t b d n e = record {
    same_config = b.0;
    rules = b.1;
    guarded = b.2;
    upstreamed = rw n (e, d);
    verifies = rw (n, d) tt;
  }
  set_dialer-IsSafe c r (x ∷ upstream) t b d n e =
      with_upstream-IsSafe c r _ t b (ap (λ v. s.parse v) e)

  lacks-guarded :
      (p : Option Bytes) (creds : Option (List Bytes))
      → lacks_credentials p creds ≡ false
      → p ≢ none
      → creds ≢ none
  unfolding lacks_credentials
  lacks-guarded none creds h p = absurd (p refl)
  lacks-guarded (some d) none h p = absurd (cc)
  lacks-guarded (some d) (some c) h p = λ q. absurd (cc)

  set_rules-IsSafe :
      (c : Config) (f : Unexported) (rules : Option (List AclRule))
      → UsesTable s
      → provision_rules s.text c.acl ≡ rules
      → Holds (IsSafe s c) (set_rules s c f rules)
  unfolding set_rules defaults
  set_rules-IsSafe c f none t e = tt
  set_rules-IsSafe c f (some rules) t e =
      elim (Bool-cases (lacks_credentials c.probe_resistance c.auth_credentials)) [
        | inl l ↦ rw l tt
        | inr l ↦ rw l (
            set_dialer-IsSafe c (defaults c f rules) c.upstream t
              (refl, e, lacks-guarded c.probe_resistance c.auth_credentials l) refl refl refl)
      ]

  provision-Holds :
      (c : Config) (f : Unexported) → UsesTable s → Holds (IsSafe s c) (provision s c f)
  unfolding provision
  provision-Holds c f t = Holds-unless _ s.metrics_fail _ _ (set_rules-IsSafe c f _ t refl)

  -- A handler that `Provision` sets up without an error keeps its configuration; has the rules of
  -- its access control list; has credentials where it has probe resistance; dials directly where no
  -- upstream is configured, and where one is, never directly, and the upstream has the scheme `https`
  -- or is local, unless that check is turned off; and skips the verification of certificates only
  -- for a local upstream. `proxy.FromURL` uses the registered function.
  pub provision-IsSafe :
      (c : Config) (f : Unexported) (r : Ready)
      → UsesTable s
      → provision s c f ≡ ready r
      → IsSafe s c r
  provision-IsSafe c f r t e = subst (λ out. Holds (IsSafe s c) out) e (provision-Holds c f t)
