-- ===== src/Setup/Caddyfile/Directives.antt =====
-- caddyfile.go: what each directive keeps of a configuration that is well formed.
use forwardproxy.Base.{
  ℕ, zero, suc, ◌<◌, ℤ, pos, negsuc, true, false, ◌||◌, List, [], ◌∷◌, ◌++◌, Option, none, some,
  Bytes, codes, ltb, ◌≡◌, inl, inr, refl, arith, All, All-append, Bool-cases, equal, is_nil,
}
use forwardproxy.Serve.Auth.Accepts.{is_configured}
use forwardproxy.Serve.Auth.{Codec}
use forwardproxy.Setup.Caddyfile.{
  Config, Configured, basic_auth, configured, encode_auth_credentials, fails, flag, or_empty,
  port_number, ports_of, rooted, serve_pac, set_hosts, set_ports, set_probe_resistance,
  set_upstream, single, with_idle, with_idle_per_host, with_ports, with_timeout,
}
use forwardproxy.Std.Strconv.{atoi}
use forwardproxy.Std.Strings.{has_byte, has_prefix}

abbrev pub IsPort : ℤ → Type 0
IsPort (pos n) = (0 < n) × (n < 65536)
IsPort (negsuc n) = ⊥

abbrev pub IsDuration : ℤ → Type 0
IsDuration (pos n) = Unit
IsDuration (negsuc n) = ⊥

-- A name with at least one byte and no colon, then a colon and any password, encoded.
abbrev pub IsCredential : Codec → Bytes → Type 0
IsCredential codec x =
    (user pass : Bytes) × (x ≡ codec.encode (user ++ b':' ∷ pass))
    × (is_nil user ≡ false)
    × (has_byte b':' user ≡ false)

pub record IsChecked (codec : Codec) (c : Config) : Type 0 where
  pub ports : All IsPort c.allowed_ports
  pub credentials : All (IsCredential codec) (or_empty c.auth_credentials)
  pub pac : (is_nil c.pac_path || has_prefix c.pac_path (codes "/")) ≡ true
  pub timeout : IsDuration c.dial_timeout

abbrev OnlyIfSome : {A : Type 0} → (A → Type 0) → Option A → Type 0
OnlyIfSome P none = Unit
OnlyIfSome P (some a) = P a

not_above : (n : ℕ) → ltb 65535 n ≡ false → n < 65536
not_above n e = ground arith

port_number-IsPort : (o : Option ℤ) → OnlyIfSome IsPort (port_number o)
unfolding port_number
port_number-IsPort none = tt
port_number-IsPort (some (negsuc n)) = tt
port_number-IsPort (some (pos zero)) = tt
port_number-IsPort (some (pos (suc n))) = elim (Bool-cases (ltb 65535 (suc n))) [
  | inl e ↦ rw e tt
  | inr e ↦ rw e (omega arith, omega (arith, not_above (suc n) e))
]

more_ports :
    (n : Option ℤ) (ns : Option (List ℤ))
    → OnlyIfSome IsPort n
    → OnlyIfSome (All IsPort) ns
    → OnlyIfSome
        (All IsPort)
        (elim n [ none ↦ none | some n ↦ elim ns [ none ↦ none | some ns ↦ some (n ∷ ns) ] ])
more_ports none ns h t = tt
more_ports (some n) none h t = tt
more_ports (some n) (some ns) h t = (h, t)

ports_of-IsPort : (ports : List Bytes) → OnlyIfSome (All IsPort) (ports_of ports)
unfolding ports_of
ports_of-IsPort [] = tt
ports_of-IsPort (p ∷ ports) =
    more_ports (port_number (atoi p)) (ports_of ports) (port_number-IsPort (atoi p))
      (ports_of-IsPort ports)

is_configured-append :
    (codec : Codec) (x : Bytes) (xs ys : List Bytes)
    → is_configured codec x xs ≡ true
    → is_configured codec x (xs ++ ys) ≡ true
is_configured-append codec x [] ys h = absurd (cc)
is_configured-append codec x (y ∷ xs) ys h = elim (Bool-cases (equal y x)) [
  | inl e ↦ rw e refl
  | inr e ↦ rw e (is_configured-append codec x xs ys (rw e at h))
]

module _ (codec : Codec) (since : List Bytes) where
  -- Well-formed, and with all the credentials that there were before.
  abbrev pub Grown : Config → Type 0
  Grown c =
      IsChecked codec c
      × ((x : Bytes)
          → is_configured codec x since ≡ true
          → is_configured codec x (or_empty c.auth_credentials) ≡ true)

  abbrev pub Checks : Configured → Type 0
  Checks (configured c) = Grown c
  Checks (fails e) = Unit

  -- With the ports, the credentials, the path and the timeout as they were, so is the rest.
  pub unchanged :
      (c d : Config)
      → d.allowed_ports ≡ c.allowed_ports
      → d.auth_credentials ≡ c.auth_credentials
      → d.pac_path ≡ c.pac_path
      → d.dial_timeout ≡ c.dial_timeout
      → Grown c
      → Grown d
  unchanged c d p a q t h = (
    record {
      ports = rw p h.0.ports;
      credentials = rw a h.0.credentials;
      pac = rw q h.0.pac;
      timeout = rw t h.0.timeout;
    },
    λ x k. rw a (h.1 x k),
  )

  pub basic_auth-Checks :
      (c : Config) (args : List Bytes) → Grown c → Checks (basic_auth codec c args)
  unfolding basic_auth encode_auth_credentials
  basic_auth-Checks c [] h = tt
  basic_auth-Checks c (a ∷ []) h = tt
  basic_auth-Checks c (a ∷ b ∷ d ∷ args) h = tt
  basic_auth-Checks c (user ∷ pass ∷ []) h = elim (Bool-cases (is_nil user)) [
    | inl e ↦ rw e tt
    | inr e ↦ elim (Bool-cases (has_byte b':' user)) [
      | inl f ↦ rw (e, f) tt
      | inr f ↦
          rw (e, f)
            (
              record {
                ports = h.0.ports;
                credentials =
                    All-append (IsCredential codec) (or_empty c.auth_credentials) _ h.0.credentials
                      ((user, pass, refl, e, f), tt);
                pac = h.0.pac;
                timeout = h.0.timeout;
              },
              λ x k. is_configured-append codec x (or_empty c.auth_credentials) _ (h.1 x k),
            )
    ]
  ]

  pub set_hosts-Checks :
      (c : Config) (args hosts : List Bytes) → Grown c → Checks (set_hosts c args hosts)
  unfolding set_hosts
  set_hosts-Checks c [] hosts h = tt
  set_hosts-Checks c (a ∷ args) [] h = unchanged c _ refl refl refl refl h
  set_hosts-Checks c (a ∷ args) (b ∷ hosts) h = tt

  with_ports-Checks :
      (c : Config) (ports : Option (List ℤ))
      → OnlyIfSome (All IsPort) ports
      → Grown c
      → Checks (with_ports c ports)
  unfolding with_ports
  with_ports-Checks c none p h = tt
  with_ports-Checks c (some ports) p h = (
    record { ports = p; credentials = h.0.credentials; pac = h.0.pac; timeout = h.0.timeout },
    h.1,
  )

  pub set_ports-Checks :
      (c : Config) (args : List Bytes) (ports : List ℤ) → Grown c → Checks (set_ports c args ports)
  unfolding set_ports
  set_ports-Checks c [] ports h = tt
  set_ports-Checks c (a ∷ args) [] h =
      with_ports-Checks c (ports_of (a ∷ args)) (ports_of-IsPort (a ∷ args)) h
  set_ports-Checks c (a ∷ args) (p ∷ ports) h = tt

  pub flag-Checks : (c : Config) (args : List Bytes) → Grown c → Checks (flag c args)
  unfolding flag
  flag-Checks c [] h = h
  flag-Checks c (a ∷ args) h = tt

  pub set_probe_resistance-Checks :
      (c : Config) (args : List Bytes) → Grown c → Checks (set_probe_resistance c args)
  unfolding set_probe_resistance
  set_probe_resistance-Checks c [] h = unchanged c _ refl refl refl refl h
  set_probe_resistance-Checks c (a ∷ []) h = unchanged c _ refl refl refl refl h
  set_probe_resistance-Checks c (a ∷ b ∷ args) h = tt

  with_path :
      (c : Config) (path : Bytes)
      → has_prefix path (codes "/") ≡ true
      → Grown c
      → Grown (record c { pac_path = path })
  with_path c path p h = (
    record {
      ports = h.0.ports;
      credentials = h.0.credentials;
      pac = ground (arith, p);
      timeout = h.0.timeout;
    },
    h.1,
  )

  rooted-has_prefix : (path : Bytes) → has_prefix (rooted path) (codes "/") ≡ true
  unfolding rooted has_prefix
  rooted-has_prefix path = elim (Bool-cases (has_prefix path (codes "/"))) [
    | inl e ↦ rw e e
    | inr e ↦ rw e refl
  ]

  pub serve_pac-Checks :
      (c : Config) (args : List Bytes) (path : Bytes) → Grown c → Checks (serve_pac c args path)
  unfolding serve_pac has_prefix
  serve_pac-Checks c [] [] h = with_path c _ refl h
  serve_pac-Checks c (a ∷ []) [] h = with_path c _ (rooted-has_prefix a) h
  serve_pac-Checks c [] (x ∷ path) h = tt
  serve_pac-Checks c (a ∷ []) (x ∷ path) h = tt
  serve_pac-Checks c (a ∷ b ∷ args) path h = tt

  pub with_timeout-Checks : (c : Config) (o : Option ℤ) → Grown c → Checks (with_timeout c o)
  unfolding with_timeout
  with_timeout-Checks c none h = tt
  with_timeout-Checks c (some (negsuc n)) h = tt
  with_timeout-Checks c (some (pos n)) h = (
    record { ports = h.0.ports; credentials = h.0.credentials; pac = h.0.pac; timeout = tt },
    h.1,
  )

  pub with_idle-Checks : (c : Config) (o : Option ℤ) → Grown c → Checks (with_idle c o)
  unfolding with_idle
  with_idle-Checks c none h = tt
  with_idle-Checks c (some n) h = unchanged c _ refl refl refl refl h

  pub with_idle_per_host-Checks :
      (c : Config) (o : Option ℤ) → Grown c → Checks (with_idle_per_host c o)
  unfolding with_idle_per_host
  with_idle_per_host-Checks c none h = tt
  with_idle_per_host-Checks c (some n) h = unchanged c _ refl refl refl refl h

  pub set_upstream-Checks : (c : Config) (old a : Bytes) → Grown c → Checks (set_upstream c old a)
  unfolding set_upstream
  set_upstream-Checks c [] a h = unchanged c _ refl refl refl refl h
  set_upstream-Checks c (x ∷ old) a h = tt

  pub single-Checks :
      (args : List Bytes) (f : Bytes → Configured)
      → ((a : Bytes) → Checks (f a))
      → Checks (single args f)
  unfolding single
  single-Checks [] f h = tt
  single-Checks (a ∷ []) f h = h a
  single-Checks (a ∷ b ∷ args) f h = tt
