-- ===== src/Interop/Modes.antt =====
-- cmd/m4-rfc9298-client/main.go: `runIdle`, `runShutdown`, and `main`.
use forwardproxy.Base.{
  ℕ, ◌-◌, Bool, true, false, not, List, Option, none, some, Bytes, codes, equal, ltb, ◌==◌,
  if◌then◌else◌,
}
use forwardproxy.Interop.Limits.{run_limits}
use forwardproxy.Interop.Matrix.{Fixtures, loopback, run_matrix}
use forwardproxy.Interop.Opening.{DialledClient, dialled, no_client}
use forwardproxy.Interop.Padding.{TcpResult, TcpRun, interoperates, run_tcp_padding}
use forwardproxy.Interop.Session.{
  Cmd, Failure, Outcome, Sent, Service, bad_status, closed_early, closing, echo, encode, err, fail,
  fixture_failed, no_shutdown, ok, opened, produced_datagram, pure, receives, relabel, require,
  send_failed, sends, sent, still_echoes, too_large, unhealthy, ◌>>=◌, ◌>>◌,
}

module _ {W : Type 0} (service : Service W) where
  abbrev clock : Cmd W ℕ
  clock w = (ok (service.now w), w)

  abbrev waits : ℕ → ℕ → Cmd W (Option Bytes)
  waits ms s w = let (out, w') = service.receive_for ms s w in (ok out, w')

  abbrev is_sent : Sent → Bool
  is_sent sent = true
  is_sent too_large = false
  is_sent send_failed = false

  abbrev tries : ℕ → Bytes → Cmd W Bool
  tries s datagram w = let (out, w') = service.send_datagram s datagram w in (ok (is_sent out), w')

  abbrev none_or_fail : Failure → Option Bytes → Cmd W (Unit {0})
  none_or_fail e none = pure tt
  none_or_fail e (some datagram) = fail e

  -- What comes of a datagram over the expired stream.
  abbrev silent_if : Bool → ℕ → Cmd W (Unit {0})
  silent_if false s = pure tt
  silent_if true s = do late ← waits 500 s; none_or_fail still_echoes late

  idle_wait : ℕ → ℕ → Cmd W (Unit {0})
  idle_wait port s = do
    started ← clock
    datagram ← waits 125000 s
    none_or_fail produced_datagram datagram
    ended ← clock
    require (not (ltb (ended - started) 120000)) closed_early
    went ← tries s (encode (codes "expired-stream"))
    silent_if went s
    (λ w. relabel unhealthy (echo service loopback port (codes "post-idle") w))

  -- `runIdle`, with the port of the echo where it starts.
  unfoldable pub run_idle : Option ℕ → Cmd W (Unit {0})
  unfolding idle_wait
  run_idle none = fail fixture_failed
  run_idle (some port) = do
    (s, status) ← opened service loopback port
    require (status == 200) (bad_status status)
    closing service s (idle_wait port s)

  ends_or_fail : ℕ → Cmd W (Unit {0})
  ends_or_fail s w =
      let (ends, w') = service.stream_ends s w in ((if ends then ok tt else err no_shutdown), w')

  -- `runShutdown`
  unfoldable pub run_shutdown : Option ℕ → Cmd W (Unit {0})
  unfolding ends_or_fail
  run_shutdown none = fail fixture_failed
  run_shutdown (some port) = do
    (s, status) ← opened service loopback port
    require (status == 200) (bad_status status)
    closing service s
        (do sends service s (encode (codes "shutdown-ready")); receives service s; ends_or_fail s)

  -- The mode "smoke" of `main`.
  unfoldable pub run_smoke : Option ℕ → Cmd W (Unit {0})
  run_smoke none = fail fixture_failed
  run_smoke (some port) = echo service loopback port (codes "smoke")

-- What the runs of one call of `main` meet.
pub record Setting (W : Type 0) : Type 0 where
  pub service : Service W
  -- The second connection of `runLimits`, where its dial succeeds, and its close.
  pub second : Option (Service W)
  pub hang_up : W → W
  pub echo_port : Option ℕ
  pub fixtures : Option Fixtures
  pub order : List ℕ
  pub tcp : TcpRun

abbrev pub passed_or_failed : {W A : Type 0} → Outcome A × W → Bool
passed_or_failed (ok a, w) = true
passed_or_failed (err e, w) = false

abbrev pub is_interoperable : TcpResult → Bool
is_interoperable interoperates = true
is_interoperable _ = false

module _ {W : Type 0} (x : Setting W) where
  limits_with : Option (Service W) → Option ℕ → W → Bool
  limits_with none port w = false
  limits_with (some second) none w =
      passed_or_failed (run_limits x.service second 0 false x.hang_up w)
  limits_with (some second) (some port) w =
      passed_or_failed (run_limits x.service second port true x.hang_up w)

  -- Whether the run of a mode returns no error.
  unfoldable pub mode_passes : Bytes → W → Bool
  unfolding limits_with
  mode_passes mode w =
      if equal mode (codes "smoke")
      then passed_or_failed (run_smoke x.service x.echo_port w)
      else if equal mode (codes "matrix")
      then passed_or_failed (run_matrix x.service x.fixtures x.order w)
      else if equal mode (codes "limits")
      then limits_with x.second x.echo_port w
      else if equal mode (codes "idle")
      then passed_or_failed (run_idle x.service x.echo_port w)
      else if equal mode (codes "shutdown")
      then passed_or_failed (run_shutdown x.service x.echo_port w)
      else if equal mode (codes "tcp-padding")
      then is_interoperable (run_tcp_padding x.tcp)
      else false

  -- The exit status of `main`.
  unfoldable pub main_status : DialledClient → Bytes → W → ℕ
  unfolding mode_passes
  main_status (no_client e) mode w = 1
  main_status (dialled client) mode w = if mode_passes mode w then 0 else 1
