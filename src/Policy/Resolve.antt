-- ===== src/Policy/Resolve.antt =====
-- The addresses that `resolveTargetCheckACL` hands to the dialer.
use mathlib.Core.List.{append_assoc}
use forwardproxy.Acl.{AclRule, host_is_allowed}
use forwardproxy.Base.{
  ◌<◌, ◌≡◌, ◌≢◌, ◌⊎◌, ◌∙◌, sym, refl, inl, inr, Bool, true, false, not, ◌&&◌, ◌||◌, List, [], ◌∷◌,
  ◌++◌, Option, some, Bytes, equal_iff, equal_refl, arith, All, All-append, length, ◌==◌,
  Bool-cases, Option-cases,
}
use forwardproxy.Policy.{
  Rules, ResolvedTarget, resolved, Prepared, rejected, prepare_target_policy, admitted,
  admit_address, admit_addresses, collected, looked_up, resolve_prepared, resolve_target_check_acl,
  member,
}
use forwardproxy.Std.Net.{Ip, IpText, join_host_port}

-- No entry stands twice.
abbrev pub AllDifferent : List Bytes → Type 0
AllDifferent [] = Unit
AllDifferent (a ∷ xs) = (member a xs ≡ false) × AllDifferent xs

member-append :
    (a : Bytes) (xs ys : List Bytes) → member a (xs ++ ys) ≡ (member a xs || member a ys)
unfolding member
member-append a [] ys = refl
member-append a (x ∷ xs) ys = ground (arith, member-append a xs ys)

AllDifferent-concat :
    (xs : List Bytes) (a : Bytes)
    → AllDifferent xs
    → member a xs ≡ false
    → AllDifferent (xs ++ a ∷ [])
unfolding member
AllDifferent-concat [] a h e = (refl, tt)
AllDifferent-concat (x ∷ xs) a h e = (
  ground (arith, member-append x xs (a ∷ []), h.0, equal_iff x a, equal_iff a x),
  AllDifferent-concat xs a h.1 (ground arith),
)

module _ (text : IpText) (rules : List AclRule) (host port : Bytes) where
  -- An address that some looked-up and allowed IP stands for.
  pub record Comes (ips : List Ip) (address : Bytes) : Type 0 where
    pub ip : Ip
    pub before : List Ip
    pub after : List Ip
    pub looked_up : ips ≡ before ++ ip ∷ after
    pub not_nil : 0 < length ip
    pub is_allowed : host_is_allowed rules host ip ≡ true
    pub is_address : address ≡ join_host_port (text.ip_string ip) port

  -- What an IP must satisfy to be dialled.
  abbrev pub passes : Ip → Bool
  passes ip = not (length ip == 0) && host_is_allowed rules host ip

  abbrev pub dial_address : Ip → Bytes
  dial_address ip = join_host_port (text.ip_string ip) port

  abbrev admit : List Ip → List Bytes → List Bytes
  admit = admit_addresses text rules host port

  admit_address-keeps :
      (ip : Ip) (out : List Bytes) (a : Bytes)
      → member a out ≡ true
      → member a (admit_address text rules host port ip out) ≡ true
  unfolding admit_address member
  admit_address-keeps ip out a h = ground (arith, member-append a out (dial_address ip ∷ []), h)

  admit-keeps :
      (ips : List Ip) (out : List Bytes) (a : Bytes)
      → member a out ≡ true
      → member a (admit ips out) ≡ true
  unfolding admit_addresses
  admit-keeps [] out a h = h
  admit-keeps (ip ∷ ips) out a h =
      admit-keeps ips (admit_address text rules host port ip out) a (admit_address-keeps ip out a h)

  -- Every IP that passes is dialled, under its address.
  admit_address-has :
      (ip : Ip) (out : List Bytes)
      → passes ip ≡ true
      → member (dial_address ip) (admit_address text rules host port ip out) ≡ true
  unfolding admit_address member
  admit_address-has ip out h = ground (
    arith,
    member-append (dial_address ip) out (dial_address ip ∷ []),
    equal_refl (dial_address ip),
  )

  admit_complete :
      (ips : List Ip) (out : List Bytes)
      → All (λ ip. passes ip ≡ true → member (dial_address ip) (admit ips out) ≡ true) ips
  unfolding admit_addresses
  admit_complete [] out = tt
  admit_complete (ip ∷ ips) out = (
    λ h.
        admit-keeps ips (admit_address text rules host port ip out) (dial_address ip)
          (admit_address-has ip out h),
    admit_complete ips (admit_address text rules host port ip out),
  )

  admit_address-AllDifferent :
      (ip : Ip) (out : List Bytes)
      → AllDifferent out
      → AllDifferent (admit_address text rules host port ip out)
  unfolding admit_address
  admit_address-AllDifferent ip out h = ground (arith, AllDifferent-concat out (dial_address ip) h)

  admit-AllDifferent :
      (ips : List Ip) (out : List Bytes) → AllDifferent out → AllDifferent (admit ips out)
  unfolding admit_addresses
  admit-AllDifferent [] out h = h
  admit-AllDifferent (ip ∷ ips) out h =
      admit-AllDifferent ips _ (admit_address-AllDifferent ip out h)

  admit_address_cases :
      (ip : Ip) (out : List Bytes)
      → (admit_address text rules host port ip out ≡ out)
        ⊎ ((0 < length ip)
            × (host_is_allowed rules host ip ≡ true)
            × (admit_address text rules host port ip out ≡ out ++ dial_address ip ∷ []))
  unfolding admit_address
  admit_address_cases ip out = elim (Bool-cases (passes ip)) [
    | inl good ↦ elim (Bool-cases (member (dial_address ip) out)) [
      | inl there ↦ inl (ground arith)
      | inr new ↦ inr (ground arith, ground arith, ground arith)
    ]
    | inr bad ↦ inl (ground arith)
  ]

  admit_address-Comes :
      (ips before after : List Ip) (ip : Ip) (out : List Bytes)
      → ips ≡ before ++ ip ∷ after
      → All (Comes ips) out
      → All (Comes ips) (admit_address text rules host port ip out)
  admit_address-Comes ips before after ip out e h = elim (admit_address_cases ip out) [
    | inl same ↦ rw same h
    | inr (not_nil, ok, more) ↦ rw more (
        All-append (Comes ips) out _ h (
          record {
            ip = ip;
            before = before;
            after = after;
            looked_up = e;
            not_nil = not_nil;
            is_allowed = ok;
            is_address = refl;
          },
          tt,
        ))
  ]

  admit-Comes :
      (all before ips : List Ip) (out : List Bytes)
      → all ≡ before ++ ips
      → All (Comes all) out
      → All (Comes all) (admit ips out)
  unfolding admit_addresses
  admit-Comes all before [] out e h = h
  admit-Comes all before (ip ∷ ips) out e h =
      admit-Comes all (before ++ ip ∷ []) ips _ (e ∙ sym (append_assoc before (ip ∷ []) ips))
        (admit_address-Comes all before ips ip out e h)

-- What a resolved target holds: the host and port that the policy admitted, and a list of dial
-- addresses, not empty and with no address twice, of exactly the looked-up IPs that are not nil and
-- that the access control list allows for the host.
pub record IsChecked (text : IpText) (lookup : Bytes → Option (List Ip)) (h : Rules)
    (target : Bytes) (t : ResolvedTarget) : Type 0 where
  pub prepared : prepare_target_policy h target ≡ admitted t.host t.port
  pub ips : List Ip
  pub looked_up : lookup t.host ≡ some ips
  pub some_address : t.addresses ≢ []
  pub all_different : AllDifferent t.addresses
  pub only_allowed : All (Comes text h.acl_rules t.host t.port ips) t.addresses
  pub every_allowed :
      All
        (λ ip.
          passes text h.acl_rules t.host t.port ip ≡ true
          → member (dial_address text h.acl_rules t.host t.port ip) t.addresses ≡ true)
        ips

module _ (text : IpText) (lookup : Bytes → Option (List Ip)) (h : Rules) (target : Bytes)
    (t : ResolvedTarget) where
  collected-IsChecked :
      (host port : Bytes) (ips : List Ip) (addresses : List Bytes)
      → prepare_target_policy h target ≡ admitted host port
      → lookup host ≡ some ips
      → admit_addresses text h.acl_rules host port ips [] ≡ addresses
      → collected host port addresses ≡ resolved t
      → IsChecked text lookup h target t
  unfolding collected
  collected-IsChecked host port ips [] p l c e = absurd (cc)
  collected-IsChecked host port ips (a ∷ addresses) p l c e = rw (← target_is) (record {
    prepared = p;
    ips = ips;
    looked_up = l;
    some_address = λ x. absurd (cc);
    all_different = rw c at (admit-AllDifferent text h.acl_rules host port ips [] tt);
    only_allowed = rw c at (admit-Comes text h.acl_rules host port ips [] ips [] refl tt);
    every_allowed = rw c at (admit_complete text h.acl_rules host port ips []);
  })
    where
      target_is :
          ◌≡◌ {A = ResolvedTarget}
            (record { host = host; port = port; addresses = a ∷ addresses })
            t
      target_is = cc

  resolve_prepared-IsChecked :
      (p : Prepared)
      → prepare_target_policy h target ≡ p
      → resolve_prepared text lookup h p ≡ resolved t
      → IsChecked text lookup h target t
  unfolding resolve_prepared looked_up
  resolve_prepared-IsChecked (rejected kind) p e = absurd (cc)
  resolve_prepared-IsChecked (admitted host port) p e = elim (Option-cases (lookup host)) [
    | inl missing ↦ absurd (ground (arith, missing))
    | inr (ips, found) ↦
        collected-IsChecked host port ips _ p found refl
          (rw (found, resolve_prepared, looked_up) at e)
  ]

-- Whatever target string and resolver: if `resolveTargetCheckACL` returns a target, the port policy
-- and the hostname rules have admitted its host and port, it has an address, its addresses are all
-- different, each is the dial address of a looked-up IP that the whole access list allows for the
-- host, and no such address is missing.
pub resolve_target_check_acl-IsChecked :
    (text : IpText) (lookup : Bytes → Option (List Ip)) (h : Rules) (target : Bytes)
    (t : ResolvedTarget)
    → resolve_target_check_acl text lookup h target ≡ resolved t
    → IsChecked text lookup h target t
unfolding resolve_target_check_acl
resolve_target_check_acl-IsChecked text lookup h target t e =
    resolve_prepared-IsChecked text lookup h target t (prepare_target_policy h target) refl e
