-- ===== src/Acl/Domain.antt =====
-- What a hostname rule matches.
use forwardproxy.Acl.{no_match, domain_rule, try_match}
use forwardproxy.Base.{
  Bool, true, ◌∷◌, ◌++◌, Bytes, codes, equal, equal_iff, ◌≡◌, ◌≢◌, ◌↔◌, ◌⊎◌, inl, inr, arith,
  Bool-cases,
}
use forwardproxy.Std.Net.{Ip}
use forwardproxy.Std.Strings.Laws.{has_suffix_iff}
use forwardproxy.Std.Strings.{has_suffix, trim_prefix}

-- A rule for a domain matches a hostname, one leading dot aside, exactly when it is the domain
-- itself or, where the rule has `*.`, ends in a dot and the domain. The address plays no part.
pub try_match-domain_rule_iff :
    (domain host : Bytes) (subdomains_allowed allow : Bool) (ip : Ip)
    → (try_match (domain_rule domain subdomains_allowed allow) ip host ≢ no_match) ↔ (
        (trim_prefix host (codes ".") ≡ domain)
        ⊎ ((subdomains_allowed ≡ true)
            × ((before : Bytes) × (trim_prefix host (codes ".") ≡ before ++ b'.' ∷ domain))))
unfolding try_match
try_match-domain_rule_iff domain host sub allow ip = (there, back)
  where
    name : Bytes
    name = trim_prefix host (codes ".")

    there :
        try_match (domain_rule domain sub allow) ip host ≢ no_match
        → (name ≡ domain) ⊎ ((sub ≡ true) × ((before : Bytes) × (name ≡ before ++ b'.' ∷ domain)))
    there h = elim (Bool-cases (equal name domain)) [
      | inl same ↦ inl ((equal_iff name domain).0 same)
      | inr other ↦ elim (Bool-cases (has_suffix name (b'.' ∷ domain))) [
        | inl below ↦ elim (Bool-cases sub) [
          | inl star ↦ inr (star, (has_suffix_iff name (b'.' ∷ domain)).0 below)
          | inr plain ↦ absurd (h (ground arith))
        ]
        | inr apart ↦ absurd (h (ground arith))
      ]
    ]

    back :
        (name ≡ domain) ⊎ ((sub ≡ true) × ((before : Bytes) × (name ≡ before ++ b'.' ∷ domain)))
        → try_match (domain_rule domain sub allow) ip host ≢ no_match
    back (inl same) h = ground (arith, equal_iff name domain)
    back (inr (star, below)) h =
        let ends = (has_suffix_iff name (b'.' ∷ domain)).1 below in ground (arith, ends)
