-- ===== src/Interop/Matrix/Passes.antt =====
-- The matrix against a server that relays.
use forwardproxy.Base.{
  ℕ, ◌≤◌, ◌<◌, ◌≡◌, refl, List, [], ◌∷◌, Bytes, Option, some, codes, equal, length, arith,
  replicate, map, All, length-replicate,
}
use forwardproxy.Interop.Dns.{answered_header, dns_answer, dns_query, is_dns_response, has_header}
use forwardproxy.Interop.Matrix.{
  Fixtures, all_run, cancel_run, dns_run, loopback, oversize_run, parallel_payload, parallel_run,
  private_domain_target, run_matrix, started_matrix,
}
use forwardproxy.Interop.Session.Laws.{Relays, echo_lem}
use forwardproxy.Interop.Session.{Cmd, Service, decode, echo, encode, ok, ◌>>◌}

module _ {W : Type 0} where
  abbrev pub Passes : Cmd W (Unit {0}) → Type 0
  Passes m = (w : W) → (w' : W) × (m w ≡ (ok tt, w'))

  Passes-then : (m n : Cmd W (Unit {0})) → Passes m → Passes n → Passes (m >> n)
  Passes-then m n p q w = let (w₁, e) = p w in let (w₂, e') = q w₁ in (w₂, rw e e')

  all_run-Passes : (ms : List (Cmd W (Unit {0}))) → All Passes ms → Passes (all_run ms)
  unfolding all_run
  all_run-Passes [] h w = (w, refl)
  all_run-Passes (m ∷ ms) (p, h) w =
      let (w₁, e) = p w in let (w₂, e') = all_run-Passes ms h w₁ in (w₂, rw e (rw e' refl))

module _ {W : Type 0} (service : Service W) (Serves : Bytes → ℕ → (Bytes → Option Bytes) → Type 0)
    (limit : ℕ) (relays : Relays service Serves limit) (f : Fixtures) where
  dns_run-Passes : 1024 ≤ limit → Serves loopback f.dns dns_answer → Passes (dns_run service f)
  unfolding dns_run dns_answer answered_header is_dns_response has_header encode decode
  dns_run-Passes fits good w =
      let (s, w₁, opening, ready) = relays.opens loopback f.dns dns_answer w good in
      let (w₂, sending, waiting) =
        relays.sends s dns_answer dns_query _ w₁ ready (omega (arith, fits)) refl in
      let (w₃, receiving, _) = relays.receives s dns_answer _ w₂ waiting in
      (service.close_stream s w₃, rw opening (rw sending (rw receiving refl)))

  oversize_run-Passes :
      1024 ≤ limit → limit < 65535 → Serves loopback f.ipv4 some → Passes (oversize_run service f)
  unfolding oversize_run encode decode equal
  oversize_run-Passes fits small good w =
      let (s, w₁, opening, ready) = relays.opens loopback f.ipv4 some w good in
      let (w₂, rejecting, ready') =
        relays.rejects s some (replicate 65535 0) w₁ ready
          (omega (arith, small, length-replicate {A = ℕ} 65535 0)) in
      let (w₃, sending, waiting) =
        relays.sends s some (codes "post-oversize") _ w₂ ready' (omega (arith, fits)) refl in
      let (w₄, receiving, _) = relays.receives s some _ w₃ waiting in
      (service.close_stream s w₄, rw opening (rw rejecting (rw sending (rw receiving refl))))

  cancel_run-Passes : 1024 ≤ limit → Serves loopback f.ipv4 some → Passes (cancel_run service f)
  unfolding cancel_run
  cancel_run-Passes fits good w =
      let (s, w₁, opening, ready) = relays.opens loopback f.ipv4 some w good in
      let (w₂, echoed) =
        echo_lem service Serves limit relays loopback f.ipv4 (codes "post-cancel")
          (service.pause 50 (service.close_stream s w₁)) good (omega (arith, fits)) in
      (w₂, rw opening (rw echoed refl))

  echoes-Pass :
      (order : List ℕ)
      → Serves loopback f.ipv4 some
      → All (λ i. length (parallel_payload i) ≤ limit) order
      → All Passes (map (λ i. echo service loopback f.ipv4 (parallel_payload i)) order)
  echoes-Pass [] good h = tt
  echoes-Pass (i ∷ order) good (fits, h) = (
    λ w. echo_lem service Serves limit relays loopback f.ipv4 (parallel_payload i) w good fits,
    echoes-Pass order good h,
  )

  -- Against a server that relays, with targets that echo behind the two loopback addresses and the
  -- domain name and the fixture's name server behind the fourth, and with a limit on payloads from 1024
  -- to 65534 bytes, `runMatrix` returns no error, in whatever order the parallel echoes run, each of
  -- whose payloads is within the limit.
  pub run_matrix-passes :
      (order : List ℕ) (w : W)
      → 1024 ≤ limit
      → limit < 65535
      → Serves loopback f.ipv4 some
      → Serves (codes "::1") f.dual some
      → Serves private_domain_target f.dual some
      → Serves loopback f.dns dns_answer
      → All (λ i. length (parallel_payload i) ≤ limit) order
      → (w' : W) × (run_matrix service (some f) order w ≡ (ok tt, w'))
  unfolding run_matrix started_matrix parallel_run
  run_matrix-passes order w fits small v4 v6 domain dns payloads =
      let echoes : (host : Bytes) (port : ℕ) (payload : Bytes)
          → Serves host port some
          → length payload ≤ limit
          → Passes (echo service host port payload) =
        λ host port payload good short w.
          echo_lem service Serves limit relays host port payload w good short in
      Passes-then _ _ (echoes loopback f.ipv4 _ v4 (omega (arith, fits)))
        (Passes-then _ _ (echoes (codes "::1") f.dual _ v6 (omega (arith, fits))) (
          Passes-then _ _ (echoes private_domain_target f.dual _ domain (omega (arith, fits))) (
            Passes-then _ _ (echoes loopback f.ipv4 _ v4 (omega (arith, fits))) (
              Passes-then _ _
                (echoes loopback f.ipv4 _ v4
                  (omega (arith, fits, length-replicate {A = ℕ} 1024 165)))
                (Passes-then _ _ (dns_run-Passes fits dns) (
                  Passes-then _ _ (oversize_run-Passes fits small v4) (
                    Passes-then _ _ (all_run-Passes _ (echoes-Pass order v4 payloads))
                      (cancel_run-Passes fits v4))))))))
        w
