-- ===== src/Interop/Limits.antt =====
-- cmd/m4-rfc9298-client/main.go, `runLimits`. The state has the list of the streams that the run keeps
-- open beside the shared state `W`.
pub mod Seats
use forwardproxy.Base.{
  ℕ, zero, suc, ◌+◌, Bool, true, false, List, [], ◌∷◌, ◌++◌, Bytes, leb, ◌==◌, length,
}
use forwardproxy.Interop.Matrix.{loopback}
use forwardproxy.Interop.Session.{
  Cmd, Failure, Outcome, Service, err, fail, fixture_failed, not_admitted, not_refused,
  not_reusable, ok, opened, or_fail, pure, relabel, require, ◌>>=◌, ◌>>◌,
}

abbrev pub Kept : Type 0 → Type 0
Kept W = W × List ℕ

module _ {W : Type 0} where
  -- A command that leaves the list alone.
  abbrev pub lifted : {A : Type 0} → Cmd W A → Cmd (Kept W) A
  lifted m (w, streams) = let (out, w') = m w in (out, (w', streams))

  abbrev pub keep : ℕ → Cmd (Kept W) (Unit {0})
  keep s (w, streams) = (ok tt, (w, streams ++ s ∷ []))

  abbrev pub kept_count : Cmd (Kept W) ℕ
  kept_count (w, streams) = (ok (length streams), (w, streams))

-- The client's connection and the second one, which the run opens first.
module _ {W : Type 0} (first second : Service W) (port : ℕ) where
  abbrev pub owner : ℕ → Service W
  owner i = elim (leb 64 i) [ true ↦ second | false ↦ first ]

  abbrev closes_kept : ℕ → Cmd (Kept W) (Unit {0})
  closes_kept s (w, streams) = (ok tt, (first.close_stream s w, streams))

  -- The loop of admissions from index `i` on.
  unfoldable pub fill_places : ℕ → ℕ → Cmd (Kept W) (Unit {0})
  fill_places zero i = pure tt
  fill_places (suc n) i = do
    k ← kept_count
    (s, status) ← (λ v. relabel (not_admitted (k + 1)) (lifted (opened (owner i) loopback port) v))
    require (status == 200) (not_admitted (k + 1))
    keep s
    fill_places n (i + 1)

  -- `closeStream(streams[0]); streams = streams[1:]`
  abbrev drop_first : Cmd (Kept W) (Unit {0})
  drop_first (w, []) = (ok tt, (w, []))
  drop_first (w, s ∷ streams) = (ok tt, (first.close_stream s w, streams))

  -- The loop of attempts.
  unfoldable pub reuse : ℕ → Cmd (Kept W) (Unit {0})
  reuse zero = fail not_reusable
  reuse (suc n) = do
    lifted (λ w. (ok tt, first.pause 50 w))
    (s, status) ← lifted (opened first loopback port)
    elim (status == 200) [ true ↦ keep s | false ↦ closes_kept s >> reuse n ]

  -- What the run does once all places are taken.
  unfoldable pub full_run : ℕ → Cmd (Kept W) (Unit {0})
  unfolding reuse
  full_run attempts = do
    (s, status) ← lifted (opened first loopback port)
    closes_kept s
    require (status == 503) (not_refused status)
    drop_first
    reuse attempts

  unfoldable pub limits_body : ℕ → ℕ → Cmd (Kept W) (Unit {0})
  unfolding fill_places full_run
  limits_body places attempts = do fill_places places 0; full_run attempts

  unfoldable pub close_all : List ℕ → W → W
  close_all [] w = w
  close_all (s ∷ streams) w = close_all streams (first.close_stream s w)

  -- From the start of the fixture on, with the deferred calls.
  unfoldable pub run_limits : Bool → (W → W) → Cmd W (Unit {0})
  unfolding limits_body close_all
  run_limits false hang_up w = (err fixture_failed, hang_up w)
  run_limits true hang_up w =
      let (out, (w', streams)) = limits_body 128 20 (w, []) in (out, hang_up (close_all streams w'))
