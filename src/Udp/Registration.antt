-- ===== src/Udp/Registration.antt =====
-- native_udp_metrics.go, `initConnectUDPMetrics`. The registry is the metrics library's: its type `R`
-- and its `Register` are arguments.
pub mod Again
use forwardproxy.Base.{ℕ, List, [], ◌∷◌, Option, none, some, Bytes, codes, map}

-- A collector, by its name and by the call that has made it.
pub record Collector : Type 0 where
  pub name : Bytes
  pub made : ℕ

-- What `registry.Register` gives.
pub data Registered : Type 0 where
  registered already_registered register_error : Registered

pub data Initialised : Type 0 where
  initialised no_registry not_registered : Initialised

abbrev pub collector_names : List Bytes
collector_names =
    codes "caddy_forward_proxy_connect_udp_active_associations"
    ∷ codes "caddy_forward_proxy_connect_udp_active_associations_peak"
    ∷ codes "caddy_forward_proxy_connect_udp_associations_total"
    ∷ codes "caddy_forward_proxy_connect_udp_admission_rejections_total"
    ∷ codes "caddy_forward_proxy_connect_udp_closures_total"
    ∷ codes "caddy_forward_proxy_connect_udp_association_duration_seconds"
    ∷ []

unfoldable pub collectors : ℕ → List Collector
collectors call = map (λ name. record { name = name; made = call }) collector_names

-- `once.Do`: the first call makes the collectors.
abbrev pub made_by : ℕ → Option ℕ → ℕ
made_by call none = call
made_by call (some earlier) = earlier

module _ {R : Type 0} (register : Collector → R → Registered × R) where
  -- The loop, from the answer to one `Register` on.
  register_next : Registered × R → (R → Initialised × R) → Initialised × R
  register_next (registered, r) rest = rest r
  register_next (already_registered, r) rest = rest r
  register_next (register_error, r) rest = (not_registered, r)

  unfoldable pub register_all : List Collector → R → Initialised × R
  unfolding register_next
  register_all [] r = (initialised, r)
  register_all (c ∷ cs) r = register_next (register c r) (register_all cs)

  unfoldable pub with_made : ℕ → Initialised × R → Initialised × Option ℕ × Option R
  with_made made (out, r) = (out, some made, some r)

  -- The `call`-th call, with the call that has made the collectors, if one has; `none` is a nil
  -- registry.
  unfoldable pub init_connect_udp_metrics :
      ℕ → Option ℕ → Option R → Initialised × Option ℕ × Option R
  unfolding register_all with_made collectors
  init_connect_udp_metrics call made none = (no_registry, made, none)
  init_connect_udp_metrics call made (some r) =
      with_made (made_by call made) (register_all (collectors (made_by call made)) r)
