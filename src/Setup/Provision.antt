-- ===== src/Setup/Provision.antt =====
-- forwardproxy.go, `Provision`, and `isLocalhost`. The metrics registry, the parser and printer of
-- addresses and the table of proxy schemes are arguments.
pub mod Safety
pub mod Limits
mod Tests
use forwardproxy.Acl.{AclRule, provision_rules}
use forwardproxy.Base.{
  ℕ, zero, suc, ℤ, pos, negsuc, Bool, true, false, not, ◌&&◌, ◌||◌, List, [], ◌∷◌, Option, none,
  some, Bytes, codes, equal, if◌then◌else◌,
}
use forwardproxy.Serve.Auth.{Codec}
use forwardproxy.Serve.Requests.{Handler}
use forwardproxy.Setup.Caddyfile.{Config}
use forwardproxy.Std.Net.{IpText}
use forwardproxy.Std.Strings.{has_suffix}
use forwardproxy.Udp.Admission.{Limiter, limit_or, max_associations, max_per_client}
use forwardproxy.Upstream.Client.{
  Dialer, NewDialer, ProxyUrl, new, new_http_connect_dialer, refused,
}

-- `isLocalhost`
unfoldable pub is_localhost : Bytes → Bool
is_localhost hostname =
    equal hostname (codes "localhost")
    || equal hostname (codes "127.0.0.1")
    || equal hostname (codes "::1")
    || has_suffix hostname (codes ".localhost")

-- What `proxy.FromURL` gives: the client of httpclient.go, and whether it skips the verification of
-- certificates; or another dialer, and whether that has a `DialContext`.
pub data ProxyDialer : Type 0 where
  connects : Dialer → Bool → ProxyDialer
  foreign : Bool → ProxyDialer

-- `h.dialContext`
pub data Dials : Type 0 where
  direct : Dials
  in_context : ProxyDialer → Dials
  out_of_context : ProxyDialer → Dials

pub record Setting : Type 0 where
  pub codec : Codec
  pub text : IpText
  pub metrics_fail : Bool
  -- `url.Parse`, and what `NewHTTPConnectDialer` parses of the address that is printed again.
  pub parse : Bytes → Option ProxyUrl
  pub parse_printed : ProxyUrl → Option ProxyUrl
  pub hostname : ProxyUrl → Bytes
  pub user_string : ProxyUrl → Bytes
  -- `proxy.FromURL`, with what is registered for `http` and `https`.
  pub from_url : ProxyUrl → (ProxyUrl → Option ProxyDialer) → Option ProxyDialer

-- The fields of `Handler` that no directive sets.
pub record Unexported : Type 0 where
  pub max_active : ℤ
  pub max_client_active : ℤ
  pub idle_timeout : ℤ

-- The handler once it is set up; times are in nanoseconds.
pub record Ready : Type 0 where
  pub config : Config
  pub limiter : Limiter
  pub idle_timeout : ℕ
  pub dial_timeout : ℕ
  pub transport_max_idle : ℕ
  pub rules : List AclRule
  pub dials : Dials
  pub upstream : Option ProxyUrl

pub data ProvisionError : Type 0 where
  no_metrics bad_rule needs_authentication bad_upstream insecure_upstream no_proxy : ProvisionError

pub data Provisioned : Type 0 where
  ready : Ready → Provisioned
  refuses : ProvisionError → Provisioned

-- The idle connections that the transport keeps, 0 for no limit.
unfoldable pub max_idle : ℤ → ℕ
max_idle (pos zero) = 50
max_idle (pos (suc n)) = suc n
max_idle (negsuc n) = 0

abbrev pub association_idle_time : ℕ
association_idle_time = 120000000000

abbrev pub default_dial_timeout : ℕ
default_dial_timeout = 30000000000

-- The handler up to its dialer.
unfoldable pub defaults : Config → Unexported → List AclRule → Ready
unfolding max_idle
defaults c f rules = record {
  config = c;
  limiter = record {
    max_active = pos (limit_or f.max_active max_associations);
    max_client_active = pos (limit_or f.max_client_active max_per_client);
    active = 0;
    by_client = [];
    next_id = 0;
  };
  idle_timeout = limit_or f.idle_timeout association_idle_time;
  dial_timeout = limit_or c.dial_timeout default_dial_timeout;
  transport_max_idle = max_idle c.max_idle_conns;
  rules = rules;
  dials = direct;
  upstream = none;
}

-- Whether probe resistance is set with no credentials.
lacks_credentials : Option Bytes → Option (List Bytes) → Bool
lacks_credentials (some domain) none = true
lacks_credentials _ _ = false

-- `h.dialContext`, for the dialer to the upstream.
unfoldable pub dials_through : ProxyDialer → Dials
dials_through (connects d skips) = in_context (connects d skips)
dials_through (foreign true) = in_context (foreign true)
dials_through (foreign false) = out_of_context (foreign false)

module _ (s : Setting) where
  made : ProxyUrl → NewDialer → Option ProxyDialer
  unfolding is_localhost
  made u (refused e) = none
  made u (new d) = some (connects d (is_localhost (s.hostname u) && equal u.scheme (codes "https")))

  -- `registerHTTPDialer`, for the handler's upstream: the given address is not read.
  register_http_dialer : ProxyUrl → ProxyUrl → Option ProxyDialer
  unfolding made
  register_http_dialer u given = elim (s.parse_printed u) [
    | none ↦ none
    | some v ↦ made u (new_http_connect_dialer s.codec v)
  ]

  with_dialer : Ready → Option ProxyDialer → Provisioned
  unfolding dials_through
  with_dialer r none = refuses no_proxy
  with_dialer r (some d) = ready (record r { dials = dials_through d })

  with_upstream : Ready → Option ProxyUrl → Provisioned
  unfolding is_localhost with_dialer register_http_dialer
  with_upstream r none = refuses bad_upstream
  with_upstream r (some u) =
      if not r.config.disable_insecure_upstreams_check
        && not (is_localhost (s.hostname u))
        && not (equal u.scheme (codes "https"))
      then refuses insecure_upstream
      else with_dialer (record r { upstream = some u }) (s.from_url u (register_http_dialer u))

  set_dialer : Ready → Bytes → Provisioned
  unfolding with_upstream
  set_dialer r [] = ready r
  set_dialer r (c ∷ upstream) = with_upstream r (s.parse (c ∷ upstream))

  set_rules : Config → Unexported → Option (List AclRule) → Provisioned
  unfolding set_dialer lacks_credentials defaults
  set_rules c f none = refuses bad_rule
  set_rules c f (some rules) =
      if lacks_credentials c.probe_resistance c.auth_credentials
      then refuses needs_authentication
      else set_dialer (defaults c f rules) c.upstream

  -- `Provision`
  unfoldable pub provision : Config → Unexported → Provisioned
  unfolding set_rules
  provision c f =
      if s.metrics_fail then refuses no_metrics else set_rules c f (provision_rules s.text c.acl)

  -- The handler as `ServeHTTP` reads it.
  abbrev pub handler_of : Ready → Handler
  handler_of r = record {
    pac_path = r.config.pac_path;
    hide_ip = r.config.hide_ip;
    hide_via = r.config.hide_via;
    probe_resistance = r.config.probe_resistance;
    auth_credentials = r.config.auth_credentials;
    rules = record { acl_rules = r.rules; allowed_ports = r.config.allowed_ports };
    upstream = elim r.upstream [ none ↦ none | some u ↦ some (s.user_string u) ];
  }
