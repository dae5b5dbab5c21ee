-- ===== src/Dial/Incremental/Order.antt =====
-- The order in which `popLocked` gives a set of candidates that no longer grows.
use forwardproxy.Base.{
  ℕ, zero, suc, ◌+◌, ◌≤◌, List, [], ◌∷◌, Option, none, some, Bytes, ◌≡◌, ◌≢◌, ◌↔◌, ◌⊎◌, inl, inr,
  refl, sym, ap, ◌∙◌, arith, All, Option-cases, length,
}
use forwardproxy.Dial.Feed.{Feed, pop_locked}
use forwardproxy.Dial.Incremental.{family_byte}
use forwardproxy.Dial.Interleave.Laws.{
  family_only, family_only-kept, family_only-none, interleave_tcp_addresses-leading, leading,
}
use forwardproxy.Dial.Interleave.{
  Family, Network, alternate, interleave_tcp_addresses, ip_family, kept_family, parsed_family,
  same_family, v4, v6, wrong_family,
}
use forwardproxy.Std.Net.{IpText}

alternate-nil : (ps : List Bytes) → alternate ps [] ≡ alternate [] ps
unfolding alternate
alternate-nil [] = refl
alternate-nil (p ∷ ps) = ap (λ xs. p ∷ xs) (alternate-nil ps)

alternate_turns : (p : Bytes) (ps fs : List Bytes) → alternate (p ∷ ps) fs ≡ p ∷ alternate fs ps
unfolding alternate
alternate_turns p ps [] = ap (λ xs. p ∷ xs) (alternate-nil ps)
alternate_turns p [] (f ∷ fs) = ap (λ xs. p ∷ f ∷ xs) (sym (alternate-nil fs))
alternate_turns p (q ∷ ps) (f ∷ fs) = ap (λ xs. p ∷ f ∷ xs) (alternate_turns q ps fs)

abbrev in_turn : Option Family → List Bytes → List Bytes → List Bytes
in_turn none q4 q6 = alternate q6 q4
in_turn (some v4) q4 q6 = alternate q6 q4
in_turn (some v6) q4 q6 = alternate q4 q6

module _ (text : IpText) where
  abbrev pub AllOf : Family → List Bytes → Type 0
  AllOf g = All (λ a. family_byte text a ≡ some g)

  kept-family_byte :
      (network : Network) (a : Bytes) (g : Family)
      → kept_family text network a ≡ some g
      → family_byte text a ≡ some g
  unfolding kept_family parsed_family family_byte ip_family wrong_family
  kept-family_byte network a g h = ground (arith, h)

  family_only-AllOf :
      (network : Network) (g : Family) (xs : List Bytes)
      → All (λ a. kept_family text network a ≡ some g) xs
      → AllOf g xs
  family_only-AllOf network g [] h = tt
  family_only-AllOf network g (x ∷ xs) h =
      (kept-family_byte network x g h.0, family_only-AllOf network g xs h.1)

  alternate-family_only :
      (network : Network) (addresses : List Bytes)
      → (leading text network addresses ≡ some v6) ⊎ (family_only text network v6 addresses ≡ [])
      → alternate (family_only text network v6 addresses) (family_only text network v4 addresses)
        ≡ interleave_tcp_addresses text network addresses
  unfolding alternate
  alternate-family_only network addresses (inl h) =
      sym (interleave_tcp_addresses-leading text network addresses ∙ rw h refl)
  alternate-family_only network addresses (inr e) =
      elim (Option-cases (leading text network addresses)) [
        | inl h ↦
            rw
              (
                family_only-none text network v6 addresses h,
                family_only-none text network v4 addresses h,
              )
              (sym (interleave_tcp_addresses-leading text network addresses ∙ rw h refl))
        | inr (v6, h) ↦ sym (interleave_tcp_addresses-leading text network addresses ∙ rw h refl)
        | inr (v4, h) ↦ rw e (
            sym (
              interleave_tcp_addresses-leading text network addresses
              ∙ rw (h, e) (alternate-nil (family_only text network v4 addresses))))
      ]

  leading-family_only :
      (network : Network) (addresses : List Bytes)
      → leading text network addresses ≡ some v4
      → family_only text network v4 addresses ≢ []
  unfolding leading family_only same_family
  leading-family_only network [] h e = absurd (cc (h))
  leading-family_only network (a ∷ addresses) h e =
      elim (Option-cases (kept_family text network a)) [
        | inl k ↦
            leading-family_only network addresses (rw (k, leading) at h) (rw (k, family_only) at e)
        | inr (v4, k) ↦ absurd (cc (rw (k, family_only) at e))
        | inr (v6, k) ↦ absurd (cc (rw (k, leading) at h))
      ]

  first_differs :
      (network : Network) (q4 q6 : List Bytes)
      → All (λ a. kept_family text network a ≡ some v4) q4
      → All (λ a. kept_family text network a ≡ some v6) q6
      → q4 ≢ []
      → alternate q6 q4 ≡ alternate q4 q6
      → q6 ≡ []
  unfolding alternate
  first_differs network q4 [] a b h e = refl
  first_differs network [] (y ∷ q6) a b h e = absurd (h refl)
  first_differs network (x ∷ q4) (y ∷ q6) a b h e = absurd (cc (e, a.0, b.0))

  leads_v6 :
      (network : Network) (addresses : List Bytes)
      → alternate (family_only text network v6 addresses) (family_only text network v4 addresses)
        ≡ interleave_tcp_addresses text network addresses
      → (leading text network addresses ≡ some v6) ⊎ (family_only text network v6 addresses ≡ [])
  leads_v6 network addresses e = elim (Option-cases (leading text network addresses)) [
    | inl h ↦ inr (family_only-none text network v6 addresses h)
    | inr (v6, h) ↦ inl h
    | inr (v4, h) ↦ inr (
        first_differs network _ _ (family_only-kept text network v4 addresses)
          (family_only-kept text network v6 addresses) (leading-family_only network addresses h)
          (e ∙ interleave_tcp_addresses-leading text network addresses ∙ rw h refl))
  ]

  module _ {E : Type 0} where
    -- At most `n` candidates, each popped with the family of the one before it.
    unfoldable pub drain : ℕ → Option Family → Feed E → List Bytes
    unfolding pop_locked family_byte
    drain zero last f = []
    drain (suc n) last f = elim (pop_locked last f) [
      | none ↦ []
      | some (a, f') ↦ a ∷ drain n (family_byte text a) f'
    ]

    drain-in_turn :
        (n : ℕ) (last : Option Family) (q4 q6 : List Bytes) (f : Feed E)
        → AllOf v4 q4
        → AllOf v6 q6
        → length q4 + length q6 ≤ n
        → drain n last (record f { queue_v4 = q4; queue_v6 = q6 }) ≡ in_turn last q4 q6
    unfolding drain alternate
    drain-in_turn zero none [] [] f a b h = refl
    drain-in_turn zero (some v4) [] [] f a b h = refl
    drain-in_turn zero (some v6) [] [] f a b h = refl
    drain-in_turn zero last (x ∷ q4) q6 f a b h = absurd (omega arith)
    drain-in_turn zero last [] (y ∷ q6) f a b h = absurd (omega arith)
    drain-in_turn (suc n) none [] [] f a b h = refl
    drain-in_turn (suc n) (some v4) [] [] f a b h = refl
    drain-in_turn (suc n) (some v6) [] [] f a b h = refl
    drain-in_turn (suc n) none [] (y ∷ q6) f a b h = rw b.0 (
        ap (λ xs. y ∷ xs) (drain-in_turn n (some v6) [] q6 f a b.1 (omega arith))
        ∙ sym (alternate_turns y q6 []))
    drain-in_turn (suc n) none (x ∷ q4) (y ∷ q6) f a b h = rw b.0 (
        ap (λ xs. y ∷ xs) (drain-in_turn n (some v6) (x ∷ q4) q6 f a b.1 (omega arith))
        ∙ sym (alternate_turns y q6 (x ∷ q4)))
    drain-in_turn (suc n) none (x ∷ q4) [] f a b h =
        rw a.0 (ap (λ xs. x ∷ xs) (drain-in_turn n (some v4) q4 [] f a.1 b (omega arith)))
    drain-in_turn (suc n) (some v4) [] (y ∷ q6) f a b h = rw b.0 (
        ap (λ xs. y ∷ xs) (drain-in_turn n (some v6) [] q6 f a b.1 (omega arith))
        ∙ sym (alternate_turns y q6 []))
    drain-in_turn (suc n) (some v4) (x ∷ q4) (y ∷ q6) f a b h = rw b.0 (
        ap (λ xs. y ∷ xs) (drain-in_turn n (some v6) (x ∷ q4) q6 f a b.1 (omega arith))
        ∙ sym (alternate_turns y q6 (x ∷ q4)))
    drain-in_turn (suc n) (some v4) (x ∷ q4) [] f a b h =
        rw a.0 (ap (λ xs. x ∷ xs) (drain-in_turn n (some v4) q4 [] f a.1 b (omega arith)))
    drain-in_turn (suc n) (some v6) (x ∷ q4) q6 f a b h = rw a.0 (
        ap (λ xs. x ∷ xs) (drain-in_turn n (some v4) q4 q6 f a.1 b (omega arith))
        ∙ sym (alternate_turns x q4 q6))
    drain-in_turn (suc n) (some v6) [] (y ∷ q6) f a b h =
        rw b.0 (ap (λ xs. y ∷ xs) (drain-in_turn n (some v6) [] q6 f a b.1 (omega arith)))

    drain-alternate :
        (network : Network) (addresses : List Bytes) (f : Feed E) (n : ℕ)
        → f.queue_v4 ≡ family_only text network v4 addresses
        → f.queue_v6 ≡ family_only text network v6 addresses
        → length f.queue_v4 + length f.queue_v6 ≤ n
        → drain n none f
          ≡ alternate
              (family_only text network v6 addresses)
              (family_only text network v4 addresses)
    drain-alternate network addresses f n q4 q6 enough =
        drain-in_turn n none f.queue_v4 f.queue_v6 f
          (rw q4 (family_only-AllOf network v4 _ (family_only-kept text network v4 addresses)))
          (rw q6 (family_only-AllOf network v6 _ (family_only-kept text network v6 addresses)))
          enough
        ∙ rw (q4, q6) refl

    -- Where both lookups have ended and nothing is left out, `popLocked` gives the candidates, one
    -- after another, in the order in which `interleaveTCPAddresses` puts the same addresses, exactly
    -- if the addresses start with an IPv6 one or have none: behind a first IPv4 address the two orders
    -- differ as soon as there is an IPv6 one.
    pub drain-interleave_tcp_addresses_iff :
        (network : Network) (addresses : List Bytes) (f : Feed E) (n : ℕ)
        → f.queue_v4 ≡ family_only text network v4 addresses
        → f.queue_v6 ≡ family_only text network v6 addresses
        → length f.queue_v4 + length f.queue_v6 ≤ n
        → (drain n none f ≡ interleave_tcp_addresses text network addresses) ↔ (
            (leading text network addresses ≡ some v6)
            ⊎ (family_only text network v6 addresses ≡ []))
    drain-interleave_tcp_addresses_iff network addresses f n q4 q6 enough = (
      λ e.
          leads_v6 network addresses (sym (drain-alternate network addresses f n q4 q6 enough) ∙ e),
      λ h.
          drain-alternate network addresses f n q4 q6 enough
          ∙ alternate-family_only network addresses h,
    )
