-- ===== src/Acl/Tests.antt =====
-- Runs of the access control list.
use forwardproxy.Acl.Defaults.{
  host_is_allowed-default, loopback6, link_local6, net4, private_nets, is_private,
}
use forwardproxy.Acl.Domain.{try_match-domain_rule_iff}
use forwardproxy.Acl.Order.{Decides, host_is_allowed_iff}
use forwardproxy.Acl.{
  AclRule, AclEntry, allowed, no_match, all_rule, ip_rule, domain_rule, try_match, host_is_allowed,
  new_acl_rule, is_valid_domain_lite, provision_rules, add_entries, private_subjects,
}
use forwardproxy.Base.{
  true, false, List, [], ◌∷◌, ◌++◌, Option, none, some, Bytes, codes, equal, if◌then◌else◌, ◌≡◌,
  ◌≢◌, ◌↔◌, ◌⊎◌, refl, arith,
}
use forwardproxy.Std.Net.{IpNet, IpText}
use forwardproxy.Std.Strings.{trim_prefix, has_prefix, has_suffix, split}

abbrev read_net : List Bytes → List IpNet → Bytes → Option IpNet
read_net (s ∷ subjects) (n ∷ nets) subject =
    let rest = read_net subjects nets subject in if equal s subject then some n else rest
read_net _ _ subject = none

abbrev table : IpText
table = record {
  parse_ip = λ s. none;
  parse_cidr = read_net private_subjects private_nets;
  ip_string = λ ip. ip;
}

abbrev rules : List AclRule
rules =
    domain_rule (codes "bad.com") true false ∷ ip_rule (net4 10 0 255 0) false ∷ all_rule true ∷ []

host_is_allowed_iff_example :
    (host_is_allowed rules (codes "good.com") (11 ∷ 1 ∷ 1 ∷ 1 ∷ []) ≡ true)
    ↔ Decides (codes "good.com") (11 ∷ 1 ∷ 1 ∷ 1 ∷ []) allowed rules
host_is_allowed_iff_example = host_is_allowed_iff (codes "good.com") (11 ∷ 1 ∷ 1 ∷ 1 ∷ []) rules

try_match-domain_rule_iff_example :
    (try_match (domain_rule (codes "bad.com") true false) [] (codes "www.bad.com") ≢ no_match) ↔ (
      (trim_prefix (codes "www.bad.com") (codes ".") ≡ codes "bad.com")
      ⊎ ((true ≡ true)
          × ((before : Bytes) × (trim_prefix (codes "www.bad.com") (codes ".")
                ≡ before ++ b'.' ∷ codes "bad.com"))))
try_match-domain_rule_iff_example =
    try_match-domain_rule_iff (codes "bad.com") (codes "www.bad.com") true false []

abbrev entries : List AclEntry
entries = record { subjects = codes "*.bad.com" ∷ []; allow = false } ∷ []

host_is_allowed-default_example :
    host_is_allowed
      ((domain_rule (codes "bad.com") true false ∷ [])
        ++ ip_rule (net4 10 0 255 0) false
          ∷ ip_rule (net4 127 0 255 0) false
          ∷ ip_rule (net4 172 16 255 240) false
          ∷ ip_rule (net4 192 168 255 255) false
          ∷ ip_rule loopback6 false
          ∷ ip_rule link_local6 false
          ∷ all_rule true
          ∷ [])
      (codes "good.com")
      (172 ∷ 20 ∷ 0 ∷ 1 ∷ [])
    ≡ false
unfolding provision_rules add_entries try_match equal new_acl_rule has_prefix is_valid_domain_lite
    split trim_prefix has_suffix is_private
host_is_allowed-default_example =
    host_is_allowed-default table entries (domain_rule (codes "bad.com") true false ∷ []) _
      (codes "good.com") 172 20 0 1
      (record {
        ten = refl;
        loopback = refl;
        sixteen = refl;
        home = refl;
        loopback_v6 = refl;
        link_local_v6 = refl;
      })
      refl refl (refl, tt) (omega arith) (omega arith) (omega arith) (omega arith)
