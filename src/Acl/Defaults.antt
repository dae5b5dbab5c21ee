-- ===== src/Acl/Defaults.antt =====
-- The default policy that `Provision` puts behind the configured rules.
use mathlib.Core.Option.{some-injective}
use mathlib.Core.List.{append_assoc, append-nil}
use forwardproxy.Acl.Order.{host_is_allowed-passed}
use forwardproxy.Acl.{
  AclRule, AclEntry, no_match, ip_rule, all_rule, try_match, host_is_allowed, provision_rules,
  add_entries, add_subjects, new_acl_rule, private_subjects,
}
use forwardproxy.Base.{
  ℕ, ◌<◌, ◌/◌, Bool, true, false, not, ◌&&◌, ◌||◌, List, [], ◌∷◌, ◌++◌, some, Bytes, codes, equal,
  ◌≡◌, refl, sym, ap, ◌∙◌, arith, All, ◌==◌, replicate, map,
}
use forwardproxy.Std.Masks.{bit_and-255, bit_and-0, bit_and-240}
use forwardproxy.Std.Net.{IpNet, IpText, contains_ip}

abbrev pub net4 : ℕ → ℕ → ℕ → ℕ → IpNet
net4 a b m n = record { ip = a ∷ b ∷ 0 ∷ 0 ∷ []; mask = m ∷ n ∷ 0 ∷ 0 ∷ [] }

abbrev pub loopback6 : IpNet
loopback6 = record { ip = replicate 15 0 ++ 1 ∷ []; mask = replicate 16 255 }

abbrev pub link_local6 : IpNet
link_local6 = record { ip = 254 ∷ 128 ∷ replicate 14 0; mask = 255 ∷ 192 ∷ replicate 14 0 }

-- `net.ParseCIDR` on the six literals of `Provision`: an IPv4 network in four bytes, an IPv6 one in
-- sixteen, with the mask of the prefix length.
pub record ReadsDefaults (text : IpText) : Type 0 where
  pub ten : text.parse_cidr (codes "10.0.0.0/8") ≡ some (net4 10 0 255 0)
  pub loopback : text.parse_cidr (codes "127.0.0.0/8") ≡ some (net4 127 0 255 0)
  pub sixteen : text.parse_cidr (codes "172.16.0.0/12") ≡ some (net4 172 16 255 240)
  pub home : text.parse_cidr (codes "192.168.0.0/16") ≡ some (net4 192 168 255 255)
  pub loopback_v6 : text.parse_cidr (codes "::1/128") ≡ some loopback6
  pub link_local_v6 : text.parse_cidr (codes "fe80::/10") ≡ some link_local6

abbrev deny : IpNet → AclRule
deny n = ip_rule n false

abbrev pub private_nets : List IpNet
private_nets =
    net4 10 0 255 0
    ∷ net4 127 0 255 0
    ∷ net4 172 16 255 240
    ∷ net4 192 168 255 255
    ∷ loopback6
    ∷ link_local6
    ∷ []

-- Which IPv4 addresses the default policy keeps a client from.
unfoldable pub is_private : ℕ → ℕ → Bool
is_private a b = a == 10 || a == 127 || a == 172 && b / 16 == 1 || a == 192 && b == 168

module _ (text : IpText) where
  -- Each subject is the text of a network, and not the word `all`.
  ReadsNets : List Bytes → List IpNet → Type 0
  ReadsNets [] [] = Unit
  ReadsNets (s ∷ subjects) (n ∷ nets) =
      (equal s (codes "all") ≡ false) × (text.parse_cidr s ≡ some n) × ReadsNets subjects nets
  ReadsNets _ _ = ⊥

  add_subjects-ReadsNets :
      (rules : List AclRule) (allow : Bool) (subjects : List Bytes) (nets : List IpNet)
      → ReadsNets subjects nets
      → add_subjects text rules allow subjects ≡ some (rules ++ map (λ n. ip_rule n allow) nets)
  unfolding ReadsNets add_subjects new_acl_rule
  add_subjects-ReadsNets rules allow [] [] h = ap (λ x. some x) (sym (append-nil rules))
  add_subjects-ReadsNets rules allow [] (n ∷ nets) h = absurd h
  add_subjects-ReadsNets rules allow (s ∷ subjects) [] h = absurd h
  add_subjects-ReadsNets rules allow (s ∷ subjects) (n ∷ nets) (word, net, more) =
      rw (word, net, add_subjects, new_acl_rule)
        (add_subjects-ReadsNets (rules ++ ip_rule n allow ∷ []) allow subjects nets more
          ∙ ap (λ x. some x) (append_assoc rules _ _))

  provision_rules-splits :
      (entries : List AclEntry) {user rules : List AclRule}
      → ReadsDefaults text
      → add_entries text [] entries ≡ some user
      → provision_rules text entries ≡ some rules
      → rules ≡ user ++ (map (λ n. ip_rule n false) private_nets ++ all_rule true ∷ [])
  unfolding provision_rules ReadsNets equal
  provision_rules-splits entries {user} r e h =
      let nets = add_subjects-ReadsNets user false (private_subjects) private_nets (
        refl,
        r.ten,
        (
          refl,
          r.loopback,
          (refl, r.sixteen, (refl, r.home, (refl, r.loopback_v6, (refl, r.link_local_v6, tt)))),
        ),
      ) in
      let all : provision_rules text entries
          ≡ some ((user ++ map (λ n. ip_rule n false) private_nets) ++ all_rule true ∷ []) =
        rw (e, provision_rules) (rw (nets, provision_rules)) in
      some-injective _ _ (sym h ∙ all) ∙ append_assoc user _ _

private_rules-decide :
    (host : Bytes) (a b c d : ℕ)
    → a < 256
    → b < 256
    → c < 256
    → d < 256
    → host_is_allowed
        (map (λ n. ip_rule n false) private_nets ++ all_rule true ∷ [])
        host
        (a ∷ b ∷ c ∷ d ∷ [])
      ≡ not (is_private a b)
unfolding host_is_allowed try_match contains_ip is_private
private_rules-decide host a b c d ha hb hc hd = ground (
  arith,
  bit_and-255 a ha,
  bit_and-255 b hb,
  bit_and-240 b hb,
  bit_and-0 b hb,
  bit_and-0 c hc,
  bit_and-0 d hd,
)

-- Where no configured rule matches a host and an IPv4 address, the address is allowed exactly when
-- it lies outside 10/8, 127/8, 172.16/12 and 192.168/16.
pub host_is_allowed-default :
    (text : IpText) (entries : List AclEntry) (user rules : List AclRule) (host : Bytes)
    (a b c d : ℕ)
    → ReadsDefaults text
    → add_entries text [] entries ≡ some user
    → provision_rules text entries ≡ some rules
    → All (λ r. try_match r (a ∷ b ∷ c ∷ d ∷ []) host ≡ no_match) user
    → a < 256
    → b < 256
    → c < 256
    → d < 256
    → host_is_allowed rules host (a ∷ b ∷ c ∷ d ∷ []) ≡ not (is_private a b)
host_is_allowed-default text entries user rules host a b c d r e h passed ha hb hc hd =
    rw (provision_rules-splits text entries r e h) (
      host_is_allowed-passed host (a ∷ b ∷ c ∷ d ∷ []) user _ passed
      ∙ private_rules-decide host a b c d ha hb hc hd)
