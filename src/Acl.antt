-- ===== src/Acl.antt =====
-- acl.go, and `hostIsAllowed` and the rules that `Provision` sets up in forwardproxy.go.
pub mod Order
pub mod Domain
pub mod Defaults
mod Tests
use forwardproxy.Base.{
  ℕ, Bool, true, false, not, ◌&&◌, ◌||◌, List, [], ◌∷◌, ◌++◌, Option, none, some, Bytes, codes,
  equal, leb, ltb, ◌==◌, if◌then◌else◌, length, drop,
}
use forwardproxy.Std.Net.{Ip, IpNet, IpText, contains_ip, to4, has_to16}
use forwardproxy.Std.Strings.{has_prefix, has_suffix, trim_prefix, split}

-- `ACLRule`
pub record AclEntry : Type 0 where
  pub subjects : List Bytes
  pub allow : Bool

pub data Decision : Type 0 where
  allowed denied no_match : Decision

pub data AclRule : Type 0 where
  ip_rule : IpNet → Bool → AclRule
  domain_rule : Bytes → Bool → Bool → AclRule
  all_rule : Bool → AclRule

abbrev verdict : Bool → Decision
verdict allow = if allow then allowed else denied

-- `tryMatch` of `aclIPRule`, `aclDomainRule` and `aclAllRule`.
unfoldable pub try_match : AclRule → Ip → Bytes → Decision
try_match (ip_rule net allow) ip domain =
    if not (contains_ip net ip) then no_match else verdict allow
try_match (domain_rule domain' subdomains_allowed allow) ip domain =
    let host = trim_prefix domain (codes ".") in
    if equal host domain' || subdomains_allowed && has_suffix host (b'.' ∷ domain')
    then verdict allow
    else no_match
try_match (all_rule allow) ip domain = verdict allow

pub data DomainError : Type 0 where
  bad_character : ℕ → DomainError
  empty_section long_section : DomainError

abbrev pub is_domain_byte : ℕ → Bool
is_domain_byte c =
    leb b'a' c && leb c b'z'
    || leb b'A' c && leb c b'Z'
    || c == b'_'
    || leb b'0' c && leb c b'9'
    || c == b'-'
    || c == b'.'

check_bytes : Bytes → Option DomainError
check_bytes [] = none
check_bytes (c ∷ s) =
    let rest = check_bytes s in if is_domain_byte c then rest else some (bad_character c)

check_sections : List Bytes → Option DomainError
check_sections [] = none
check_sections (s ∷ sections) =
    let rest = check_sections sections in
    if length s == 0
    then some empty_section
    else if ltb 63 (length s)
    then some long_section
    else rest

-- `isValidDomainLite`, `none` for nil.
unfoldable pub is_valid_domain_lite : Bytes → Option DomainError
unfolding check_bytes check_sections
is_valid_domain_lite domain = elim (check_bytes domain) [
  | some e ↦ some e
  | none ↦ check_sections (split b'.' domain)
]

pub data NewRule : Type 0 where
  made : AclRule → NewRule
  refused : Bytes → DomainError → NewRule

abbrev pub private_subjects : List Bytes
private_subjects =
    codes "10.0.0.0/8"
    ∷ codes "127.0.0.0/8"
    ∷ codes "172.16.0.0/12"
    ∷ codes "192.168.0.0/16"
    ∷ codes "::1/128"
    ∷ codes "fe80::/10"
    ∷ []

module _ (text : IpText) where
  -- The `/32` or `/128` network of a single address.
  single_net : Bytes → Option Ip → Option IpNet
  single_net subject none = none
  single_net subject (some ip) = elim (to4 ip) [
    | some _ ↦ text.parse_cidr (subject ++ codes "/32")
    | none ↦ if has_to16 ip then text.parse_cidr (subject ++ codes "/128") else none
  ]

  subject_net : Bytes → Option IpNet
  unfolding single_net
  subject_net subject = elim (text.parse_cidr subject) [
    | some net ↦ some net
    | none ↦ single_net subject (text.parse_ip subject)
  ]

  domain_subject : Bytes → Bool → Bool → NewRule
  domain_subject domain subdomains_allowed allow = elim (is_valid_domain_lite domain) [
    | some e ↦ refused domain e
    | none ↦ made (domain_rule domain subdomains_allowed allow)
  ]

  unfoldable pub new_acl_rule : Bytes → Bool → NewRule
  unfolding subject_net domain_subject
  new_acl_rule subject allow =
      if equal subject (codes "all") then made (all_rule allow) else elim (subject_net subject) [
        | some net ↦ made (ip_rule net allow)
        | none ↦
            if has_prefix subject (codes "*.")
            then domain_subject (drop 2 subject) true allow
            else domain_subject subject false allow
      ]

  -- The inner loop of `Provision` over one entry's subjects, onto the rules made so far.
  unfoldable pub add_subjects : List AclRule → Bool → List Bytes → Option (List AclRule)
  add_subjects rules allow [] = some rules
  add_subjects rules allow (s ∷ subjects) = elim (new_acl_rule s allow) [
    | refused _ _ ↦ none
    | made rule ↦ add_subjects (rules ++ rule ∷ []) allow subjects
  ]

  unfoldable pub add_entries : List AclRule → List AclEntry → Option (List AclRule)
  add_entries rules [] = some rules
  add_entries rules (e ∷ entries) = elim (add_subjects rules e.allow e.subjects) [
    | none ↦ none
    | some rules' ↦ add_entries rules' entries
  ]

  -- The rules that `Provision` builds from the configured entries; `none` where it fails.
  unfoldable pub provision_rules : List AclEntry → Option (List AclRule)
  unfolding add_subjects add_entries
  provision_rules entries = elim (add_entries [] entries) [
    | none ↦ none
    | some rules ↦ elim (add_subjects rules false private_subjects) [
      | none ↦ none
      | some rules' ↦ some (rules' ++ all_rule true ∷ [])
    ]
  ]

-- `hostIsAllowed`
unfoldable pub host_is_allowed : List AclRule → Bytes → Ip → Bool
host_is_allowed [] hostname ip = false
host_is_allowed (rule ∷ rules) hostname ip =
    let rest = host_is_allowed rules hostname ip in
    elim (try_match rule ip hostname) [ denied ↦ false | allowed ↦ true | no_match ↦ rest ]
