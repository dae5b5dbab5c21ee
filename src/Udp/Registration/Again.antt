-- ===== src/Udp/Registration/Again.antt =====
-- Calls of `initConnectUDPMetrics` on a registry that has been initialised.
use forwardproxy.Base.{ℕ, ◌≡◌, ◌⊎◌, inl, inr, ap, refl, arith, All, List, [], ◌∷◌, Option, some}
use forwardproxy.Udp.Registration.{
  Collector, Initialised, Registered, already_registered, collectors, init_connect_udp_metrics,
  initialised, made_by, register_all, register_error, register_next, registered, with_made,
}

-- What the registry promises: a collector that has been registered, or whose metrics another one
-- collects, is taken from then on, and a taken one is answered as such, with nothing changed.
pub record IsRegistry {R : Type 0} (register : Collector → R → Registered × R) : Type 1 where
  pub Taken : Collector → R → Type 0
  pub takes :
      (c : Collector) (r r' : R) (answer : Registered)
      → register c r ≡ (answer, r')
      → (answer ≡ registered) ⊎ (answer ≡ already_registered)
      → Taken c r'
  pub stays : (c d : Collector) (r : R) → Taken c r → Taken c (register d r).1
  pub answers : (c : Collector) (r : R) → Taken c r → register c r ≡ (already_registered, r)

module _ {R : Type 0} (register : Collector → R → Registered × R) (laws : IsRegistry register) where
  open laws use {Taken, takes, stays, answers}

  next-stays :
      (c : Collector) (cs : List Collector) (x : Registered × R)
      → ((r : R) → Taken c r → Taken c (register_all register cs r).1)
      → Taken c x.1
      → Taken c (register_next register x (register_all register cs)).1
  unfolding register_next
  next-stays c cs (registered, r) h t = h r t
  next-stays c cs (already_registered, r) h t = h r t
  next-stays c cs (register_error, r) h t = t

  register_all-stays :
      (c : Collector) (cs : List Collector) (r : R)
      → Taken c r
      → Taken c (register_all register cs r).1
  unfolding register_all
  register_all-stays c [] r t = t
  register_all-stays c (d ∷ cs) r t =
      next-stays c cs (register d r) (register_all-stays c cs) (stays c d r t)

  next-Taken :
      (c : Collector) (cs : List Collector) (r r' : R) (x : Registered × R)
      → register c r ≡ x
      → ((s : R) → register_all register cs s ≡ (initialised, r') → All (λ d. Taken d r') cs)
      → register_next register x (register_all register cs) ≡ (initialised, r')
      → All (λ d. Taken d r') (c ∷ cs)
  unfolding register_next
  next-Taken c cs r r' (registered, s) e h q = (
    rw (ap (λ (y : Initialised × R). y.1) q) at
        (register_all-stays c cs s (takes c r s registered e (inl refl))),
    h s q,
  )
  next-Taken c cs r r' (already_registered, s) e h q = (
    rw (ap (λ (y : Initialised × R). y.1) q) at
        (register_all-stays c cs s (takes c r s already_registered e (inr refl))),
    h s q,
  )
  next-Taken c cs r r' (register_error, s) e h q = absurd (cc)

  register_all-Taken :
      (cs : List Collector) (r r' : R)
      → register_all register cs r ≡ (initialised, r')
      → All (λ d. Taken d r') cs
  unfolding register_all
  register_all-Taken [] r r' q = tt
  register_all-Taken (c ∷ cs) r r' q =
      next-Taken c cs r r' (register c r) refl (λ s. register_all-Taken cs s r') q

  register_all-again :
      (cs : List Collector) (r : R)
      → All (λ d. Taken d r) cs
      → register_all register cs r ≡ (initialised, r)
  unfolding register_all register_next
  register_all-again [] r t = refl
  register_all-again (c ∷ cs) r (t, ts) = rw (answers c r t) (register_all-again cs r ts)

  made_parts :
      (m n : ℕ) (x : Initialised × R) (r : R)
      → with_made register m x ≡ (initialised, some n, some r)
      → (x ≡ (initialised, r)) × (m ≡ n)
  unfolding with_made
  made_parts m n (out, s) r e = (ground arith, ground arith)

  -- After a call of `initConnectUDPMetrics` that returns no error, every further call on the same
  -- registry returns no error and changes nothing: the collectors stay those of the call that made
  -- them.
  pub init_connect_udp_metrics-again :
      (call later n : ℕ) (made : Option ℕ) (r r' : R)
      → init_connect_udp_metrics register call made (some r) ≡ (initialised, some n, some r')
      → init_connect_udp_metrics register later (some n) (some r') ≡ (initialised, some n, some r')
  unfolding init_connect_udp_metrics with_made
  init_connect_udp_metrics-again call later n made r r' e =
      let (first, same) = made_parts (made_by call made) n _ r' e in
      let taken = rw same at (register_all-Taken (collectors (made_by call made)) r r' first) in
      ap (with_made register n) (register_all-again (collectors n) r' taken)
