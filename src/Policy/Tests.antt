-- ===== src/Policy/Tests.antt =====
-- Runs of the target policy.
use forwardproxy.Acl.{all_rule, domain_rule, host_is_allowed, try_match}
use forwardproxy.Base.{
  ◌≤◌, ◌<◌, ℤ, pos, true, false, List, [], ◌∷◌, Option, some, Bytes, codes, equal, ◌≡◌, ◌↔◌, ◌⊎◌,
  refl, arith,
}
use forwardproxy.Policy.Order.{IsListed, port_is_allowed-itoa_iff, prepare_target_policy_skips}
use forwardproxy.Policy.Resolve.{IsChecked, resolve_target_check_acl-IsChecked}
use forwardproxy.Policy.{
  Rules, ResolvedTarget, rejected, domain_denied, resolve_target_check_acl, prepare_target_policy,
  port_is_allowed, domain_policy, member, admit_addresses, admit_address,
}
use forwardproxy.Std.Net.{Ip, IpText, split_host_port, join_host_port}
use forwardproxy.Std.Strconv.{atoi, itoa}
use forwardproxy.Std.Strings.{has_suffix, trim_prefix, has_prefix}

port_is_allowed-itoa_iff_example : (port_is_allowed (pos 80 ∷ pos 443 ∷ []) (itoa 443) ≡ true) ↔ (
    (0 < 443)
    × (443 ≤ 65535)
    × ((◌≡◌ {A = List ℤ} (pos 80 ∷ pos 443 ∷ []) []) ⊎ IsListed (pos 80 ∷ pos 443 ∷ []) 443))
port_is_allowed-itoa_iff_example =
    port_is_allowed-itoa_iff (pos 80 ∷ pos 443 ∷ []) 443 (omega arith)

abbrev only_default : Rules
only_default = record {
  acl_rules = all_rule true ∷ domain_rule (codes "bad.com") true false ∷ [];
  allowed_ports = [];
}

prepare_target_policy_skips_example :
    (prepare_target_policy only_default (codes "bad.com:80") ≡ rejected domain_denied)
    × ((ip : Ip) → host_is_allowed only_default.acl_rules (codes "bad.com") ip ≡ true)
unfolding split_host_port port_is_allowed atoi domain_policy try_match equal trim_prefix has_prefix
    has_suffix
prepare_target_policy_skips_example =
    prepare_target_policy_skips only_default (domain_rule (codes "bad.com") true false ∷ [])
      (codes "bad.com:80") (codes "bad.com") (codes "80") refl refl refl refl

abbrev raw_text : IpText
raw_text = record {
  parse_ip = λ s. Option.none;
  parse_cidr = λ s. Option.none;
  ip_string = λ ip. ip;
}

abbrev two_answers : Bytes → Option (List Ip)
two_answers host = some ((1 ∷ 2 ∷ 3 ∷ 4 ∷ []) ∷ [] ∷ (1 ∷ 2 ∷ 3 ∷ 4 ∷ []) ∷ [])

abbrev target : ResolvedTarget
target = record {
  host = codes "good.com";
  port = codes "80";
  addresses = (1 ∷ 2 ∷ 3 ∷ 4 ∷ b':' ∷ codes "80") ∷ [];
}

resolve_target_check_acl-IsChecked_example :
    IsChecked raw_text two_answers only_default (codes "good.com:80") target
unfolding resolve_target_check_acl prepare_target_policy split_host_port port_is_allowed atoi
    domain_policy try_match equal trim_prefix has_prefix has_suffix host_is_allowed join_host_port
    member admit_addresses admit_address
resolve_target_check_acl-IsChecked_example =
    resolve_target_check_acl-IsChecked raw_text two_answers only_default (codes "good.com:80")
      target refl
