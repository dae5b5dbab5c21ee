-- ===== src/Policy.antt =====
-- native_udp_protocol.go, `prepareTargetPolicy` to `legacyTargetPolicyError`, and `portIsAllowed` of
-- forwardproxy.go.
pub mod Resolve
pub mod Order
mod Tests
use forwardproxy.Acl.{
  AclRule, domain_rule, ip_rule, all_rule, try_match, Decision, allowed, denied, no_match,
  host_is_allowed,
}
use forwardproxy.Base.{
  ℕ, zero, suc, ℤ, pos, negsuc, Bool, true, false, not, ◌&&◌, ◌||◌, List, [], ◌∷◌, ◌++◌, Option,
  none, some, Bytes, codes, equal, leb, ltb, ◌==◌, if◌then◌else◌, length,
}
use forwardproxy.Std.Net.{
  Ip, IpText, HostPort, AddressError, host_port, bad_address, split_host_port, join_host_port,
}
use forwardproxy.Std.Strconv.{atoi}

pub data FailureKind : Type 0 where
  malformed port_denied domain_denied lookup_failed no_allowed_address : FailureKind

-- `statusCode`
unfoldable pub status_code : FailureKind → ℕ
status_code malformed = 400
status_code lookup_failed = 502
status_code _ = 403

unfoldable pub listed : ℕ → List ℤ → Bool
listed n [] = false
listed n (pos p ∷ ports) = p == n || listed n ports
listed n (negsuc p ∷ ports) = listed n ports

unfoldable pub check_port : List ℤ → ℤ → Bool
check_port ports (negsuc _) = false
check_port ports (pos zero) = false
check_port [] (pos (suc n)) = not (ltb 65535 (suc n))
check_port (p ∷ ports) (pos (suc n)) =
    if ltb 65535 (suc n) then false else listed (suc n) (p ∷ ports)

-- `portIsAllowed`
unfoldable pub port_is_allowed : List ℤ → Bytes → Bool
unfolding check_port listed
port_is_allowed allowed_ports port = elim (atoi port) [
  | none ↦ false
  | some n ↦ check_port allowed_ports n
]

-- What the handler's configuration gives to the policy.
pub record Rules : Type 0 where
  pub acl_rules : List AclRule
  pub allowed_ports : List ℤ

pub data Prepared : Type 0 where
  admitted : Bytes → Bytes → Prepared
  rejected : FailureKind → Prepared

-- The loop over the domain rules; the other rules are skipped.
unfoldable pub domain_policy : List AclRule → Bytes → Decision
domain_policy [] host = no_match
domain_policy (domain_rule d sub allow ∷ rules) host =
    let rest = domain_policy rules host in
    elim (try_match (domain_rule d sub allow) [] host) [
      | denied ↦ denied
      | allowed ↦ allowed
      | no_match ↦ rest
    ]
domain_policy (ip_rule net allow ∷ rules) host = domain_policy rules host
domain_policy (all_rule allow ∷ rules) host = domain_policy rules host

-- `prepareTargetPolicy`
unfoldable pub prepare_target_policy : Rules → Bytes → Prepared
prepare_target_policy h target = elim (split_host_port target) [
  | bad_address _ ↦ rejected malformed
  | host_port host port ↦
      if not (port_is_allowed h.allowed_ports port)
      then rejected port_denied
      else elim (domain_policy h.acl_rules host) [
        | denied ↦ rejected domain_denied
        | allowed ↦ admitted host port
        | no_match ↦ admitted host port
      ]
]

pub record ResolvedTarget : Type 0 where
  pub host : Bytes
  pub port : Bytes
  pub addresses : List Bytes

pub data Resolved : Type 0 where
  resolved : ResolvedTarget → Resolved
  failed : FailureKind → Resolved

unfoldable pub member : Bytes → List Bytes → Bool
member a [] = false
member a (x ∷ xs) = equal x a || member a xs

module _ (text : IpText) (rules : List AclRule) (host port : Bytes) where
  -- One looked-up address: skipped if nil or not allowed, or if its dial address is there already.
  -- The keys of `seen` are the addresses appended so far.
  unfoldable pub admit_address : Ip → List Bytes → List Bytes
  admit_address ip addresses =
      let address = join_host_port (text.ip_string ip) port in
      if length ip == 0 || not (host_is_allowed rules host ip)
      then addresses
      else if member address addresses
      then addresses
      else addresses ++ address ∷ []

  unfoldable pub admit_addresses : List Ip → List Bytes → List Bytes
  admit_addresses [] addresses = addresses
  admit_addresses (ip ∷ ips) addresses = admit_addresses ips (admit_address ip addresses)

-- The end of `resolveTargetCheckACL`, on the addresses collected.
unfoldable pub collected : Bytes → Bytes → List Bytes → Resolved
collected host port [] = failed no_allowed_address
collected host port (a ∷ addresses) =
    resolved (record { host = host; port = port; addresses = a ∷ addresses })

unfoldable pub looked_up : IpText → Rules → Bytes → Bytes → Option (List Ip) → Resolved
unfolding collected
looked_up text h host port none = failed lookup_failed
looked_up text h host port (some ips) =
    collected host port (admit_addresses text h.acl_rules host port ips [])

unfoldable pub resolve_prepared : IpText → (Bytes → Option (List Ip)) → Rules → Prepared → Resolved
unfolding looked_up
resolve_prepared text lookup h (rejected kind) = failed kind
resolve_prepared text lookup h (admitted host port) = looked_up text h host port (lookup host)

-- `resolveTargetCheckACL`; `lookup` is the handler's resolver, `none` where it fails.
unfoldable pub resolve_target_check_acl :
    IpText → (Bytes → Option (List Ip)) → Rules → Bytes → Resolved
unfolding resolve_prepared
resolve_target_check_acl text lookup h target =
    resolve_prepared text lookup h (prepare_target_policy h target)

-- The status of the error that `legacyTargetPolicyError` makes.
unfoldable pub legacy_target_policy_error : FailureKind → ℕ
legacy_target_policy_error malformed = 400
legacy_target_policy_error port_denied = 403
legacy_target_policy_error domain_denied = 403
legacy_target_policy_error lookup_failed = 502
legacy_target_policy_error no_allowed_address = 403
