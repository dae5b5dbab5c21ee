-- ===== src/Interop/Limits/Seats/Tests.antt =====
-- The run against a server with its default limits and no associations.
use forwardproxy.Base.{false, true, [], codes, ◌≡◌, refl, arith, pos}
use forwardproxy.Base.Dict.{count_at, lookup}
use forwardproxy.Interop.Limits.Seats.Passing.{run_limits-passes}
use forwardproxy.Interop.Limits.Seats.{Seats, seats}
use forwardproxy.Interop.Limits.{run_limits}
use forwardproxy.Interop.Session.{ok}
use forwardproxy.Udp.Admission.{limit_or}

abbrev fresh_seats : Seats
fresh_seats = record {
  limiter = record {
    max_active = pos 0;
    max_client_active = pos 0;
    active = 0;
    by_client = [];
    next_id = 0;
  };
  next = 0;
  holds = λ s. false;
}

run_limits-passes_example :
    (w' : Seats) × (run_limits
        (seats (codes "10.0.0.1"))
        (seats (codes "10.0.0.1"))
        7
        true
        (λ w. w)
        fresh_seats
      ≡ (ok tt, w'))
unfolding limit_or count_at lookup
run_limits-passes_example =
    run_limits-passes (codes "10.0.0.1") 7 0 (λ w. w) fresh_seats
      (record {
        limit_is = refl;
        room = omega arith;
        active_is = refl;
        count_is = refl;
        fresh = λ i h. refl;
      })
