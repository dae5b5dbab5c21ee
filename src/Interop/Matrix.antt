-- ===== src/Interop/Matrix.antt =====
-- cmd/m4-rfc9298-client/main.go, `runMatrix`. The eight parallel echoes run one after another, in the
-- order of an argument.
pub mod Passes
use forwardproxy.Base.{
  ℕ, Bool, List, [], ◌∷◌, ◌++◌, Option, none, some, Bytes, codes, equal, ◌==◌, replicate, map,
}
use forwardproxy.Interop.Dns.{dns_query, is_dns_response}
use forwardproxy.Interop.Session.{
  Cmd, Outcome, Sent, Service, bad_status, closes, closing, decode, echo, encode, err, fail,
  fixture_failed, invalid_dns, not_rejected, ok, opened, or_fail, receives, require, send_failed,
  sends, sent, too_large, unhealthy, relabel, ◌>>=◌, ◌>>◌,
}
use forwardproxy.Std.Strconv.{itoa}

-- The ports of the fixtures.
pub record Fixtures : Type 0 where
  pub ipv4 : ℕ
  pub dual : ℕ
  pub dns : ℕ

abbrev pub loopback : Bytes
loopback = codes "127.0.0.1"

abbrev pub private_domain_target : Bytes
private_domain_target = codes "m4-private-target.localhost"

abbrev pub private_payload : Bytes
private_payload = codes "m4-g5-private-payload"

abbrev pub parallel_payload : ℕ → Bytes
parallel_payload index = codes "parallel-" ++ itoa index

module _ {W : Type 0} where
  abbrev pub rejected_or_fail : Sent × W → Outcome (Unit {0}) × W
  rejected_or_fail (too_large, w) = (ok tt, w)
  rejected_or_fail (sent, w) = (err not_rejected, w)
  rejected_or_fail (send_failed, w) = (err not_rejected, w)

  abbrev pub first_failure : Outcome (Unit {0}) → Outcome (Unit {0}) × W → Outcome (Unit {0}) × W
  first_failure (ok a) r = r
  first_failure (err e) (out, w) = (err e, w)

  -- All run; the first error stands.
  unfoldable pub all_run : List (Cmd W (Unit {0})) → Cmd W (Unit {0})
  all_run [] w = (ok tt, w)
  all_run (m ∷ ms) w = let (out, w') = m w in first_failure out (all_run ms w')

module _ {W : Type 0} (service : Service W) (f : Fixtures) where
  unfoldable pub dns_run : Cmd W (Unit {0})
  dns_run = do
    (s, status) ← opened service loopback f.dns
    datagram ← closing service s (do
      require (status == 200) (bad_status status)
      sends service s (encode dns_query)
      receives service s)
    response ← (λ w. or_fail invalid_dns (decode datagram, w))
    require (is_dns_response response) invalid_dns

  unfoldable pub oversize_run : Cmd W (Unit {0})
  oversize_run = do
    (s, status) ← opened service loopback f.ipv4
    require (status == 200) (bad_status status)
    datagram ← closing service s (do
      (λ w. rejected_or_fail (service.send_datagram s (encode (replicate 65535 0)) w))
      sends service s (encode (codes "post-oversize"))
      receives service s)
    got ← (λ w. or_fail unhealthy (decode datagram, w))
    require (equal got (codes "post-oversize")) unhealthy

  unfoldable pub parallel_run : List ℕ → Cmd W (Unit {0})
  unfolding all_run
  parallel_run order = all_run (map (λ i. echo service loopback f.ipv4 (parallel_payload i)) order)

  unfoldable pub cancel_run : Cmd W (Unit {0})
  cancel_run = do
    (s, status) ← opened service loopback f.ipv4
    require (status == 200) (bad_status status)
    closes service s
    (λ w. (ok tt, service.pause 50 w))
    (λ w. relabel unhealthy (echo service loopback f.ipv4 (codes "post-cancel") w))

  started_matrix : List ℕ → Cmd W (Unit {0})
  unfolding dns_run oversize_run parallel_run cancel_run
  started_matrix order = do
    echo service loopback f.ipv4 (private_payload ++ codes "-ipv4")
    echo service (codes "::1") f.dual (private_payload ++ codes "-ipv6")
    echo service private_domain_target f.dual (private_payload ++ codes "-domain")
    echo service loopback f.ipv4 []
    echo service loopback f.ipv4 (replicate 1024 165)
    dns_run
    oversize_run
    parallel_run order
    cancel_run

-- `runMatrix`, with the fixtures' ports where all of them start.
unfoldable pub run_matrix : {W : Type 0} → Service W → Option Fixtures → List ℕ → Cmd W (Unit {0})
unfolding started_matrix
run_matrix service none order = fail fixture_failed
run_matrix service (some f) order = started_matrix service f order
