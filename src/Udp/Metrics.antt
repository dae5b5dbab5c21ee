-- ===== src/Udp/Metrics.antt =====
-- native_udp_metrics.go: the gauges and counters of the CONNECT-UDP path. A gauge is a number here;
-- a counter vector is a map from the label's value to its count.
use forwardproxy.Base.Dict.{insert, count_at}
use forwardproxy.Base.{
  ℕ, ◌+◌, ◌-◌, Bool, true, false, List, ◌∷◌, Option, none, some, Bytes, leb, if◌then◌else◌,
}

pub record Metrics : Type 0 where
  pub active : ℕ
  pub active_peak : ℕ
  pub active_peak_value : ℕ
  pub associations : ℕ
  pub admission_rejections : List (Bytes × ℕ)
  pub closures : List (Bytes × ℕ)
  pub duration : List ℕ

-- `counter.WithLabelValues(label).Inc()`
abbrev pub inc_label : Bytes → List (Bytes × ℕ) → List (Bytes × ℕ)
inc_label label m = insert label (count_at label m + 1) m

-- `none` is a registry that was never initialised: every record function then does nothing.
unfoldable pub record_admission : Bytes → Option Metrics → Option Metrics
record_admission limit none = none
record_admission limit (some m) =
    some (record m { admission_rejections = inc_label limit m.admission_rejections })

-- The first two lines of `recordConnectUDPAdmissionAccepted`.
unfoldable pub count_accepted : Metrics → Metrics
count_accepted m = record m { active = m.active + 1; associations = m.associations + 1 }

-- The last round of its compare-and-swap loop. True: the swap won, and the gauge is still to be set.
unfoldable pub swap_peak : ℕ → Metrics → Metrics × Bool
swap_peak active m =
    if leb active m.active_peak_value
    then (m, false)
    else (record m { active_peak_value = active }, true)

-- `activePeak.Set(float64(active))`
unfoldable pub set_peak : ℕ → Metrics → Metrics
set_peak active m = record m { active_peak = active }

-- The whole function, run by one goroutine with no other in between.
unfoldable pub record_admission_accepted : ℕ → Option Metrics → Option Metrics
unfolding count_accepted swap_peak set_peak
record_admission_accepted active none = none
record_admission_accepted active (some m) =
    let (m', won) = swap_peak active (count_accepted m) in
    some (if won then set_peak active m' else m')

unfoldable pub record_admission_released : Bytes → ℕ → Option Metrics → Option Metrics
record_admission_released reason duration none = none
record_admission_released reason duration (some m) = some (record m {
  active = m.active - 1;
  closures = inc_label reason m.closures;
  duration = duration ∷ m.duration;
})
