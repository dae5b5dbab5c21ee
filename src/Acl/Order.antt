-- ===== src/Acl/Order.antt =====
-- First match: what the access control list decides, described without the loop.
use forwardproxy.Acl.{AclRule, Decision, allowed, denied, no_match, try_match, host_is_allowed}
use forwardproxy.Base.{true, List, [], ◌∷◌, ◌++◌, Bytes, ◌≡◌, ◌↔◌, ◌⊎◌, inl, inr, refl, arith, All}
use forwardproxy.Std.Net.{Ip}

module _ (host : Bytes) (ip : Ip) where
  -- The first rule that matches decides `d`: all rules before it do not match.
  pub record Decides (d : Decision) (rules : List AclRule) : Type 0 where
    pub before : List AclRule
    pub rule : AclRule
    pub after : List AclRule
    pub splits : rules ≡ before ++ rule ∷ after
    pub passed : All (λ r. try_match r ip host ≡ no_match) before
    pub decides : try_match rule ip host ≡ d

  Decides-later :
      {d : Decision} (r : AclRule) (rules : List AclRule)
      → try_match r ip host ≡ no_match
      → Decides d rules
      → Decides d (r ∷ rules)
  Decides-later r rules e v = record {
    before = r ∷ v.before;
    rule = v.rule;
    after = v.after;
    splits = ground (arith, v.splits);
    passed = (e, v.passed);
    decides = v.decides;
  }

  Decides-now :
      {d : Decision} (r : AclRule) (rules : List AclRule)
      → try_match r ip host ≡ d
      → Decides d (r ∷ rules)
  Decides-now r rules e = record {
    before = [];
    rule = r;
    after = rules;
    splits = refl;
    passed = tt;
    decides = e;
  }

  Decision-cases : (d : Decision) → (d ≡ allowed) ⊎ ((d ≡ denied) ⊎ (d ≡ no_match))
  Decision-cases allowed = inl refl
  Decision-cases denied = inr (inl refl)
  Decision-cases no_match = inr (inr refl)

  pub host_is_allowed-passed :
      (before rules : List AclRule)
      → All (λ r. try_match r ip host ≡ no_match) before
      → host_is_allowed (before ++ rules) host ip ≡ host_is_allowed rules host ip
  unfolding host_is_allowed
  host_is_allowed-passed [] rules h = refl
  host_is_allowed-passed (r ∷ before) rules h =
      rw (h.0, host_is_allowed) (host_is_allowed-passed before rules h.1)

  Decides-allowed-true :
      (rules : List AclRule) → Decides allowed rules → host_is_allowed rules host ip ≡ true
  unfolding host_is_allowed
  Decides-allowed-true rules v =
      rw (v.splits, host_is_allowed-passed v.before _ v.passed) (rw (v.decides, host_is_allowed))

  true-Decides-allowed :
      (rules : List AclRule) → host_is_allowed rules host ip ≡ true → Decides allowed rules
  unfolding host_is_allowed
  true-Decides-allowed [] h = absurd (cc)
  true-Decides-allowed (r ∷ rules) h = elim (Decision-cases (try_match r ip host)) [
    | inl yes_now ↦ Decides-now r rules yes_now
    | inr (inl never) ↦ absurd (ground arith)
    | inr (inr later) ↦ Decides-later r rules later (true-Decides-allowed rules (ground arith))
  ]

  -- A host and address are allowed exactly when the first rule that matches them allows; with no
  -- match, or a first match that denies, they are not.
  pub host_is_allowed_iff :
      (rules : List AclRule) → (host_is_allowed rules host ip ≡ true) ↔ Decides allowed rules
  host_is_allowed_iff rules = (true-Decides-allowed rules, Decides-allowed-true rules)
