-- ===== src/Dial/Interleave/Laws.antt =====
-- What the interleaving keeps: every accepted address once, in its family's order.
use mathlib.Core.List.{append_assoc, append-nil}
use forwardproxy.Base.{
  Bool, false, List, [], ◌∷◌, ◌++◌, Option, none, some, Bytes, ◌≡◌, inl, inr, refl, sym, arith, All,
  if◌then◌else◌, Option-cases,
}
use forwardproxy.Dial.Interleave.{
  Network, Family, v4, v6, same_family, kept_family, sort_addresses, alternate,
  interleave_tcp_addresses,
}
use forwardproxy.Std.Net.{IpText}

abbrev pub other : Family → Family
other v4 = v6
other v6 = v4

module _ (text : IpText) (network : Network) where
  abbrev is_kept : Family → Option Family → Bool
  is_kept f none = false
  is_kept f (some g) = same_family g f

  -- The addresses of one family that the dial keeps, in the resolver's order.
  unfoldable pub family_only : Family → List Bytes → List Bytes
  family_only f [] = []
  family_only f (a ∷ addresses) =
      if is_kept f (kept_family text network a)
      then a ∷ family_only f addresses
      else family_only f addresses

  -- The family of the first address kept.
  unfoldable pub leading : List Bytes → Option Family
  leading [] = none
  leading (a ∷ addresses) = elim (kept_family text network a) [
    | none ↦ leading addresses
    | some f ↦ some f
  ]

  -- With an address in `primary`, the rest is sorted behind it.
  sort_addresses-behind :
      (addresses : List Bytes) (p : Bytes) (ps fs : List Bytes) (g : Family)
      → sort_addresses text network addresses
          (record { primary = p ∷ ps; fallback = fs; primary_family = g })
        ≡ record {
          primary = p ∷ ps ++ family_only g addresses;
          fallback = fs ++ family_only (other g) addresses;
          primary_family = g;
        }
  unfolding sort_addresses family_only same_family
  sort_addresses-behind [] p ps fs g = ground (arith, append-nil ps, append-nil fs)
  sort_addresses-behind (a ∷ addresses) p ps fs v4 =
      elim (Option-cases (kept_family text network a)) [
        | inl h ↦ ground (arith, sort_addresses-behind addresses p ps fs v4, h)
        | inr (v4, h) ↦ ground (
          arith,
          h,
          sort_addresses-behind addresses p (ps ++ a ∷ []) fs v4,
          append_assoc ps (a ∷ []) (family_only v4 addresses),
        )
        | inr (v6, h) ↦ ground (
          arith,
          h,
          sort_addresses-behind addresses p ps (fs ++ a ∷ []) v4,
          append_assoc fs (a ∷ []) (family_only v6 addresses),
        )
      ]
  sort_addresses-behind (a ∷ addresses) p ps fs v6 =
      elim (Option-cases (kept_family text network a)) [
        | inl h ↦ ground (arith, sort_addresses-behind addresses p ps fs v6, h)
        | inr (v4, h) ↦ ground (
          arith,
          h,
          sort_addresses-behind addresses p ps (fs ++ a ∷ []) v6,
          append_assoc fs (a ∷ []) (family_only v4 addresses),
        )
        | inr (v6, h) ↦ ground (
          arith,
          h,
          sort_addresses-behind addresses p (ps ++ a ∷ []) fs v6,
          append_assoc ps (a ∷ []) (family_only v6 addresses),
        )
      ]

  -- The second loop's input, by the family that leads.
  sort_addresses-leading :
      (addresses : List Bytes) (old : Family)
      → alternate
          (sort_addresses text network addresses
            (record { primary = []; fallback = []; primary_family = old })).primary
          (sort_addresses text network addresses
            (record { primary = []; fallback = []; primary_family = old })).fallback
        ≡ elim (leading addresses) [
          | none ↦ []
          | some g ↦ alternate (family_only g addresses) (family_only (other g) addresses)
        ]
  unfolding sort_addresses family_only leading same_family alternate
  sort_addresses-leading [] old = refl
  sort_addresses-leading (a ∷ addresses) old = ground (
    arith,
    sort_addresses-leading addresses old,
    sort_addresses-behind addresses a [] [] v4,
    sort_addresses-behind addresses a [] [] v6,
  )

  -- `interleaveTCPAddresses` drops what it cannot parse and, for `tcp4` or `tcp6`, the other family;
  -- of the rest it alternates the family of the first address with the other one, each family in
  -- the resolver's order.
  pub interleave_tcp_addresses-leading :
      (addresses : List Bytes)
      → interleave_tcp_addresses text network addresses ≡ elim (leading addresses) [
        | none ↦ []
        | some g ↦ alternate (family_only g addresses) (family_only (other g) addresses)
      ]
  unfolding interleave_tcp_addresses
  interleave_tcp_addresses-leading addresses = sort_addresses-leading addresses v6

  family_only-alternate :
      (f : Family) (ps fs : List Bytes)
      → All (λ a. kept_family text network a ≡ some f) ps
      → All (λ a. kept_family text network a ≡ some (other f)) fs
      → (family_only f (alternate ps fs) ≡ ps) × (family_only (other f) (alternate ps fs) ≡ fs)
  unfolding family_only alternate same_family
  family_only-alternate f [] [] hp hf = (refl, refl)
  family_only-alternate f (p ∷ ps) [] hp hf =
      ground (arith, family_only-alternate f ps [] hp.1 tt, hp.0)
  family_only-alternate f [] (x ∷ fs) hp hf =
      ground (arith, family_only-alternate f [] fs tt hf.1, hf.0)
  family_only-alternate f (p ∷ ps) (x ∷ fs) hp hf =
      ground (arith, family_only-alternate f ps fs hp.1 hf.1, hp.0, hf.0)

  pub family_only-kept :
      (f : Family) (addresses : List Bytes)
      → All (λ a. kept_family text network a ≡ some f) (family_only f addresses)
  unfolding family_only same_family
  family_only-kept f [] = tt
  family_only-kept v4 (a ∷ addresses) = elim (Option-cases (kept_family text network a)) [
    | inl h ↦ rw h (family_only-kept v4 addresses)
    | inr (v4, h) ↦ rw h (h, family_only-kept v4 addresses)
    | inr (v6, h) ↦ rw h (family_only-kept v4 addresses)
  ]
  family_only-kept v6 (a ∷ addresses) = elim (Option-cases (kept_family text network a)) [
    | inl h ↦ rw h (family_only-kept v6 addresses)
    | inr (v4, h) ↦ rw h (family_only-kept v6 addresses)
    | inr (v6, h) ↦ rw h (h, family_only-kept v6 addresses)
  ]

  pub family_only-none :
      (f : Family) (addresses : List Bytes)
      → leading addresses ≡ none
      → family_only f addresses ≡ []
  unfolding family_only leading
  family_only-none f [] h = refl
  family_only-none f (a ∷ addresses) h = ground (arith, family_only-none f addresses)

  other-other : (f : Family) → other (other f) ≡ f
  other-other v4 = refl
  other-other v6 = refl

  family_only-either :
      (f g : Family) (addresses : List Bytes)
      → family_only f (alternate (family_only g addresses) (family_only (other g) addresses))
        ≡ family_only f addresses
  family_only-either v4 v4 addresses =
      (family_only-alternate v4 _ _ (family_only-kept v4 addresses)
        (family_only-kept v6 addresses)).0
  family_only-either v6 v6 addresses =
      (family_only-alternate v6 _ _ (family_only-kept v6 addresses)
        (family_only-kept v4 addresses)).0
  family_only-either v4 v6 addresses =
      (family_only-alternate v6 _ _ (family_only-kept v6 addresses)
        (family_only-kept v4 addresses)).1
  family_only-either v6 v4 addresses =
      (family_only-alternate v4 _ _ (family_only-kept v4 addresses)
        (family_only-kept v6 addresses)).1

  -- Each family's addresses come out as they went in: none is lost, made up, repeated or moved
  -- before another of its family.
  pub family_only-interleave_tcp_addresses :
      (f : Family) (addresses : List Bytes)
      → family_only f (interleave_tcp_addresses text network addresses) ≡ family_only f addresses
  unfolding family_only
  family_only-interleave_tcp_addresses f addresses = elim (Option-cases (leading addresses)) [
    | inl h ↦
        rw (interleave_tcp_addresses-leading addresses, h) (sym (family_only-none f addresses h))
    | inr (g, h) ↦
        rw (interleave_tcp_addresses-leading addresses, h) (family_only-either f g addresses)
  ]
