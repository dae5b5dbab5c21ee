-- ===== src/Udp/Admission/Tests.antt =====
-- Runs of the admission of associations: two clients, a limit of two places and one for each client.
use forwardproxy.Base.{◌<◌, pos, List, [], ◌∷◌, equal, Bytes, codes, ◌≡◌, refl, arith}
use forwardproxy.Base.Dict.{count_at, lookup, insert, delete}
use forwardproxy.Udp.Metrics.{record_admission}
use forwardproxy.Udp.Admission.Invariant.{Inv, run-idle-Inv}
use forwardproxy.Udp.Admission.Peak.{PeakInv, run-idle-PeakInv, publish_lags}
use forwardproxy.Udp.Admission.Places.{run-AllClosed}
use forwardproxy.Udp.Admission.{
  World, Action, admit, count, swap, publish, release, unlock, run, step, idle, acquire, limit_or,
  drop_client, close_reason,
}

abbrev alice : Bytes
alice = codes "alice"

abbrev bob : Bytes
bob = codes "bob"

-- Both are admitted, alice asks again, and both have won the swap of the peak.
abbrev crowded : List Action
crowded = admit alice ∷ admit bob ∷ admit alice ∷ count 0 ∷ count 1 ∷ swap 0 ∷ swap 1 ∷ []

abbrev world : World
world = run (idle (pos 2) (pos 1)) crowded

-- One request from its admission to its end.
abbrev one_life : List Action
one_life =
    admit alice ∷ count 0 ∷ swap 0 ∷ publish 0 ∷ release 0 (codes "idle" ∷ []) 7 ∷ unlock 0 ∷ []

run-idle-Inv_example : Inv world
run-idle-Inv_example = run-idle-Inv (pos 2) (pos 1) crowded

run-idle-PeakInv_example : PeakInv world
run-idle-PeakInv_example = run-idle-PeakInv (pos 2) (pos 1) crowded

publish_lags_example :
    ((run world (publish 1 ∷ publish 0 ∷ [])).metrics.active_peak ≡ 1)
    × (1 < (run world (publish 1 ∷ publish 0 ∷ [])).metrics.active_peak_value)
unfolding run step acquire limit_or count_at lookup insert delete drop_client close_reason equal
    record_admission
publish_lags_example =
    publish_lags world 0 1 _ _ (run-idle-PeakInv (pos 2) (pos 1) crowded) (omega arith) refl refl
      refl refl (omega arith)

run-AllClosed_example :
    ((run (idle (pos 2) (pos 1)) one_life).limiter.active ≡ 0)
    × ((run (idle (pos 2) (pos 1)) one_life).limiter.by_client ≡ [])
unfolding run step acquire limit_or count_at lookup insert delete drop_client close_reason equal
    record_admission
run-AllClosed_example = run-AllClosed (pos 2) (pos 1) one_life (refl, tt)
