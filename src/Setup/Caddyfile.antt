-- ===== src/Setup/Caddyfile.antt =====
-- caddyfile.go, `UnmarshalCaddyfile`. The dispenser is Caddy's: what its calls give for the lines of
-- the block is a list of directives, each a name, its arguments and the lines of its own block. The
-- parser of durations and the reading of a file are arguments.
pub mod Directives
pub mod Checked
pub mod Credentials
pub mod Accepted
mod Tests
use forwardproxy.Acl.{AclEntry}
use forwardproxy.Base.{
  ℕ, zero, suc, ℤ, pos, negsuc, Bool, true, false, not, ◌||◌, List, [], ◌∷◌, ◌++◌, Option, none,
  some, Bytes, codes, equal, ltb, if◌then◌else◌, is_nil,
}
use forwardproxy.Serve.Auth.{Codec}
use forwardproxy.Std.Strconv.{atoi}
use forwardproxy.Std.Strings.{has_byte, has_prefix}

pub record Directive : Type 0 where
  pub name : Bytes
  pub args : List Bytes
  -- `none` where no brace opens behind the arguments.
  pub block : Option (List (Bytes × List Bytes))

-- The fields of `Handler` that the directives set.
pub record Config : Type 0 where
  pub auth_credentials : Option (List Bytes)
  pub hosts : List Bytes
  pub allowed_ports : List ℤ
  pub hide_ip : Bool
  pub hide_via : Bool
  pub disable_insecure_upstreams_check : Bool
  pub probe_resistance : Option Bytes
  pub pac_path : Bytes
  pub dial_timeout : ℤ
  pub max_idle_conns : ℤ
  pub max_idle_conns_per_host : ℤ
  pub upstream : Bytes
  pub acl : List AclEntry

pub data ConfigError : Type 0 where
  arg_err : ConfigError
  empty_username colon_in_username hosts_twice ports_twice bad_port pac_twice negative_timeout :
      ConfigError
  upstream_twice one_file no_file unknown_acl : ConfigError

pub data Configured : Type 0 where
  configured : Config → Configured
  fails : ConfigError → Configured

abbrev pub zero_config : Config
zero_config = record {
  auth_credentials = none;
  hosts = [];
  allowed_ports = [];
  hide_ip = false;
  hide_via = false;
  disable_insecure_upstreams_check = false;
  probe_resistance = none;
  pac_path = [];
  dial_timeout = pos 0;
  max_idle_conns = pos 0;
  max_idle_conns_per_host = pos 0;
  upstream = [];
  acl = [];
}

-- `EncodeAuthCredentials`
unfoldable pub encode_auth_credentials : Codec → Bytes → Bytes → Bytes
encode_auth_credentials codec user pass = codec.encode (user ++ b':' ∷ pass)

abbrev pub or_empty : Option (List Bytes) → List Bytes
or_empty none = []
or_empty (some creds) = creds

pub basic_auth : Codec → Config → List Bytes → Configured
unfolding encode_auth_credentials
basic_auth codec c (user ∷ pass ∷ []) =
    if is_nil user
    then fails empty_username
    else if has_byte b':' user
    then fails colon_in_username
    else configured (record c {
      auth_credentials =
          some (or_empty c.auth_credentials ++ encode_auth_credentials codec user pass ∷ []);
    })
basic_auth codec c _ = fails arg_err

pub set_hosts : Config → List Bytes → List Bytes → Configured
set_hosts c [] args = fails arg_err
set_hosts c (a ∷ args) [] = configured (record c { hosts = a ∷ args })
set_hosts c (a ∷ args) (h ∷ hosts) = fails hosts_twice

port_number : Option ℤ → Option ℤ
port_number (some (pos (suc n))) = if ltb 65535 (suc n) then none else some (pos (suc n))
port_number _ = none

-- The loop over the ports, `none` where one is refused.
ports_of : List Bytes → Option (List ℤ)
unfolding port_number
ports_of [] = some []
ports_of (p ∷ ports) = elim (port_number (atoi p)) [
  | none ↦ none
  | some n ↦ elim (ports_of ports) [ none ↦ none | some ns ↦ some (n ∷ ns) ]
]

with_ports : Config → Option (List ℤ) → Configured
with_ports c none = fails bad_port
with_ports c (some ports) = configured (record c { allowed_ports = ports })

pub set_ports : Config → List Bytes → List ℤ → Configured
unfolding with_ports ports_of
set_ports c [] ports = fails arg_err
set_ports c (a ∷ args) [] = with_ports c (ports_of (a ∷ args))
set_ports c (a ∷ args) (p ∷ ports) = fails ports_twice

-- A directive with no arguments.
pub flag : Config → List Bytes → Configured
flag c [] = configured c
flag c (a ∷ args) = fails arg_err

pub set_probe_resistance : Config → List Bytes → Configured
set_probe_resistance c [] = configured (record c { probe_resistance = some [] })
set_probe_resistance c (domain ∷ []) = configured (record c { probe_resistance = some domain })
set_probe_resistance c (a ∷ b ∷ args) = fails arg_err

rooted : Bytes → Bytes
rooted path = if has_prefix path (codes "/") then path else b'/' ∷ path

pub serve_pac : Config → List Bytes → Bytes → Configured
unfolding rooted
serve_pac c (a ∷ b ∷ args) path = fails arg_err
serve_pac c [] [] = configured (record c { pac_path = codes "/proxy.pac" })
serve_pac c (a ∷ []) [] = configured (record c { pac_path = rooted a })
serve_pac c [] (x ∷ path) = fails pac_twice
serve_pac c (a ∷ []) (x ∷ path) = fails pac_twice

pub with_timeout : Config → Option ℤ → Configured
with_timeout c none = fails arg_err
with_timeout c (some (negsuc n)) = fails negative_timeout
with_timeout c (some (pos n)) = configured (record c { dial_timeout = pos n })

pub with_idle : Config → Option ℤ → Configured
with_idle c none = fails arg_err
with_idle c (some n) = configured (record c { max_idle_conns = n })

pub with_idle_per_host : Config → Option ℤ → Configured
with_idle_per_host c none = fails arg_err
with_idle_per_host c (some n) = configured (record c { max_idle_conns_per_host = n })

-- A directive with one argument.
pub single : List Bytes → (Bytes → Configured) → Configured
single (a ∷ []) f = f a
single _ f = fails arg_err

pub set_upstream : Config → Bytes → Bytes → Configured
set_upstream c [] a = configured (record c { upstream = a })
set_upstream c (x ∷ upstream) a = fails upstream_twice

pub data Kind : Type 0 where
  k_basic_auth k_hosts k_ports k_hide_ip k_hide_via k_disable_check k_probe_resistance : Kind
  k_serve_pac k_dial_timeout k_max_idle k_max_idle_per_host k_upstream k_acl k_other : Kind

kind : Bytes → Kind
kind name =
    if equal name (codes "basic_auth")
    then k_basic_auth
    else if equal name (codes "hosts")
    then k_hosts
    else if equal name (codes "ports")
    then k_ports
    else if equal name (codes "hide_ip")
    then k_hide_ip
    else if equal name (codes "hide_via")
    then k_hide_via
    else if equal name (codes "disable_insecure_upstreams_check")
    then k_disable_check
    else if equal name (codes "probe_resistance")
    then k_probe_resistance
    else if equal name (codes "serve_pac")
    then k_serve_pac
    else if equal name (codes "dial_timeout")
    then k_dial_timeout
    else if equal name (codes "max_idle_conns")
    then k_max_idle
    else if equal name (codes "max_idle_conns_per_host")
    then k_max_idle_per_host
    else if equal name (codes "upstream")
    then k_upstream
    else if equal name (codes "acl")
    then k_acl
    else k_other

add_acl : Config → Bool → List Bytes → Configured
add_acl c allow subjects =
    configured (record c { acl = c.acl ++ record { subjects = subjects; allow = allow } ∷ [] })

add_file : Config → Bool → Option (List Bytes) → Configured
unfolding add_acl
add_file c allow none = fails no_file
add_file c allow (some lines) = add_acl c allow lines

pub record Setting : Type 0 where
  pub codec : Codec
  -- `caddy.ParseDuration`, in nanoseconds, and `readLinesFromFile`; `none` for an error.
  pub parse_duration : Bytes → Option ℤ
  pub read_lines : Bytes → Option (List Bytes)

abbrev lines_of : Option (List (Bytes × List Bytes)) → List (Bytes × List Bytes)
lines_of none = []
lines_of (some lines) = lines

abbrev reads_block : Kind → Bool
reads_block k_acl = true
reads_block k = false

-- Only `acl` reads its block: behind any other directive the loop takes the brace for the next one.
pub behind : Kind → Option (List (Bytes × List Bytes)) → Configured → Configured
behind k none out = out
behind k (some lines) (fails e) = fails e
behind k (some lines) (configured c) = if reads_block k then configured c else fails arg_err

module _ (s : Setting) where
  from_file : Config → Bool → List Bytes → Configured
  unfolding add_file
  from_file c allow (name ∷ []) = add_file c allow (s.read_lines name)
  from_file c allow _ = fails one_file

  acl_line : Config → Bytes → List Bytes → Configured
  unfolding from_file add_acl
  acl_line c name [] = fails arg_err
  acl_line c name (a ∷ args) =
      if equal name (codes "allow")
      then add_acl c true (a ∷ args)
      else if equal name (codes "allow_file")
      then from_file c true (a ∷ args)
      else if equal name (codes "deny")
      then add_acl c false (a ∷ args)
      else if equal name (codes "deny_file")
      then from_file c false (a ∷ args)
      else fails unknown_acl

  -- The loop over the lines of an `acl` block.
  acl_block : Configured → List (Bytes × List Bytes) → Configured
  unfolding acl_line
  acl_block out [] = out
  acl_block (fails e) (line ∷ lines) = fails e
  acl_block (configured c) ((name, args) ∷ lines) = acl_block (acl_line c name args) lines

  of_kind : Config → Kind → List Bytes → List (Bytes × List Bytes) → Configured
  unfolding basic_auth set_hosts set_ports flag set_probe_resistance serve_pac with_timeout
      with_idle with_idle_per_host single set_upstream acl_block
  of_kind c k_basic_auth args block = basic_auth s.codec c args
  of_kind c k_hosts args block = set_hosts c args c.hosts
  of_kind c k_ports args block = set_ports c args c.allowed_ports
  of_kind c k_hide_ip args block = flag (record c { hide_ip = true }) args
  of_kind c k_hide_via args block = flag (record c { hide_via = true }) args
  of_kind c k_disable_check args block =
      flag (record c { disable_insecure_upstreams_check = true }) args
  of_kind c k_probe_resistance args block = set_probe_resistance c args
  of_kind c k_serve_pac args block = serve_pac c args c.pac_path
  of_kind c k_dial_timeout args block = single args λ a. with_timeout c (s.parse_duration a)
  of_kind c k_max_idle args block = single args λ a. with_idle c (atoi a)
  of_kind c k_max_idle_per_host args block = single args λ a. with_idle_per_host c (atoi a)
  of_kind c k_upstream args block = single args λ a. set_upstream c c.upstream a
  of_kind c k_acl args block = acl_block (configured c) block
  of_kind c k_other args block = fails arg_err

  -- One turn of the loop, and the next one where that meets a brace.
  unfoldable pub set_directive : Config → Directive → Configured
  unfolding of_kind kind behind
  set_directive c d =
      behind (kind d.name) d.block (of_kind c (kind d.name) d.args (lines_of d.block))

  pub directives : Configured → List Directive → Configured
  unfolding set_directive
  directives out [] = out
  directives (fails e) (d ∷ ds) = fails e
  directives (configured c) (d ∷ ds) = directives (set_directive c d) ds

  -- `UnmarshalCaddyfile`, for the arguments behind the directive's name and the lines of its block.
  unfoldable pub unmarshal_caddyfile : List Bytes → List Directive → Configured
  unfolding directives
  unmarshal_caddyfile [] ds = directives (configured zero_config) ds
  unmarshal_caddyfile (a ∷ args) ds = fails arg_err
