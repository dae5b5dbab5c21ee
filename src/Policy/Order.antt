-- ===== src/Policy/Order.antt =====
-- The port check, and the order in which the policy reads the rules.
use forwardproxy.Acl.{AclRule, all_rule, denied, host_is_allowed, try_match}
use forwardproxy.Base.{
  ℕ, zero, suc, ◌++◌, ap, Bool-cases, ◌==◌, ==_iff, ◌^◌, ◌<◌, ◌≤◌, ◌≡◌, ◌↔◌, ◌⊎◌, inl, inr, refl, ℤ,
  pos, negsuc, true, List, [], ◌∷◌, Bytes, arith,
}
use forwardproxy.Policy.{
  Rules, domain_denied, rejected, domain_policy, prepare_target_policy, port_is_allowed, check_port,
  listed,
}
use forwardproxy.Std.Net.{Ip, host_port, split_host_port}
use forwardproxy.Std.Strconv.Laws.{atoi-itoa}
use forwardproxy.Std.Strconv.{itoa}

-- The number stands in the list of ports.
abbrev pub IsListed : List ℤ → ℕ → Type 0
IsListed ports p = (before : List ℤ) × (after : List ℤ) × (ports ≡ before ++ pos p ∷ after)

listed_iff : (p : ℕ) (ports : List ℤ) → (listed p ports ≡ true) ↔ IsListed ports p
unfolding listed
listed_iff p ports = (there ports, λ (before, after, e). rw e (back before after))
  where
    there : (ports : List ℤ) → listed p ports ≡ true → IsListed ports p
    there [] h = absurd (cc (h))
    there (negsuc q ∷ ports) h =
        let (before, after, e) = there ports h in (negsuc q ∷ before, after, ap (◌∷◌ (negsuc q)) e)
    there (pos q ∷ ports) h = elim (Bool-cases (q == p)) [
      | inl same ↦ ([], ports, ap (λ n. pos n ∷ ports) ((==_iff q p).0 same))
      | inr other ↦
          let (before, after, e) = there ports (rw (other, listed) at h) in
          (pos q ∷ before, after, ap (◌∷◌ (pos q)) e)
    ]

    back : (before after : List ℤ) → listed p (before ++ pos p ∷ after) ≡ true
    back [] after = ground (arith, ==_iff p p)
    back (negsuc q ∷ before) after = back before after
    back (pos q ∷ before) after = ground (arith, back before after)

check_port_iff :
    (ports : List ℤ) (p : ℕ)
    → (check_port ports (pos p) ≡ true)
      ↔ ((0 < p) × (p ≤ 65535) × ((ports ≡ []) ⊎ IsListed ports p))
unfolding check_port
check_port_iff ports zero = (λ h. absurd (cc (h)), λ (lo, hi, _). absurd (omega (arith, lo)))
check_port_iff [] (suc n) =
    (λ h. (omega arith, ground (arith, h), inl refl), λ (lo, hi, _). ground (arith, hi))
check_port_iff (q ∷ ports) (suc n) = (
  λ h. (
    omega arith,
    ground (arith, h),
    inr ((listed_iff (suc n) (q ∷ ports)).0 (ground (arith, h))),
  ),
  λ (lo, hi, l). elim l [
    | inl none ↦ absurd (cc (none))
    | inr c ↦ ground (arith, hi, (listed_iff (suc n) (q ∷ ports)).1 c)
  ],
)

-- The decimal form of a number below 2 ^ 63 is allowed as a port exactly when the number is one from 1
-- to 65535 and, where any ports are configured, stands anywhere among them.
pub port_is_allowed-itoa_iff :
    (ports : List ℤ) (p : ℕ)
    → p < 2 ^ 63
    → (port_is_allowed ports (itoa p) ≡ true)
      ↔ ((0 < p) × (p ≤ 65535) × ((ports ≡ []) ⊎ IsListed ports p))
unfolding port_is_allowed
port_is_allowed-itoa_iff ports p small =
    rw (atoi-itoa p small, port_is_allowed) (check_port_iff ports p)

-- The policy's first pass reads the hostname rules alone. So a rule that denies a hostname takes
-- effect behind an `all` rule that allows everything, though the list read in order, as
-- `hostIsAllowed` reads it, allows every address of that host.
pub prepare_target_policy_skips :
    (h : Rules) (rules : List AclRule) (target host port : Bytes)
    → h.acl_rules ≡ all_rule true ∷ rules
    → split_host_port target ≡ host_port host port
    → port_is_allowed h.allowed_ports port ≡ true
    → domain_policy rules host ≡ denied
    → (prepare_target_policy h target ≡ rejected domain_denied)
      × ((ip : Ip) → host_is_allowed h.acl_rules host ip ≡ true)
unfolding prepare_target_policy domain_policy host_is_allowed try_match
prepare_target_policy_skips h rules target host port r s p d =
    (rw (s, prepare_target_policy) (ground (arith, r, p, d)), λ ip. rw r refl)
