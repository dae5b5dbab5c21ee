-- ===== src/Masque/Running/Accounts.antt =====
-- What `connectUDPAssociation.run` has received and released, at every moment.
use forwardproxy.Base.{
  ℕ, ◌+◌, Bool, true, false, List, [], ◌∷◌, Option, none, some, ◌≡◌, refl, arith, leb, leb→le,
  length-append,
}
use forwardproxy.Masque.Running.{
  Action, Association, Place, begin, deadline_exceeded, draining, fire_if, h3_to_udp, looping,
  note_if, notes, parent_cause, parent_ends, passes, pump_returns, result_of, return_h3, return_udp,
  returned, run, see_parent, see_stream, sees_parent, sees_stream, step, stream_cause, stream_ends,
  take_activity, take_result, takes_activity, takes_result, timer_fires, udp_to_h3,
}
use forwardproxy.Masque.Running.Releases.{
  IsAccounted, IsIdle-later, result_of-IsTimely, drained-IsAccounted, finish-IsAccounted, at_loop,
  at_drain, at_drain_idle, at_looping-IsAccounted, finish_in_loop,
}

module _ {E : Type 0} where
  take_result-IsAccounted :
      (p : Place E) (results : List (Option E)) (a : Association E)
      → a.place ≡ p
      → a.results ≡ results
      → IsAccounted a
      → IsAccounted (take_result p results a)
  unfolding take_result
  take_result-IsAccounted looping [] a e q v = v
  take_result-IsAccounted (draining result) [] a e q v = v
  take_result-IsAccounted (returned result) [] a e q v = v
  take_result-IsAccounted (returned result) (r ∷ results) a e q v = v
  take_result-IsAccounted looping (r ∷ results) a e q v =
      let l = at_loop a.place a.completed a.cancels a.udp_closes a.stream_closes e v.released in
      finish-IsAccounted (result_of r) (record a { results = results; completed = a.completed + 1 })
        (omega (arith, rw q at v.total)) (l.1, l.2, l.3) v.timed (result_of-IsTimely r _ a.clock)
  take_result-IsAccounted (draining result) (r ∷ results) a e q v =
      let l =
        at_drain a.place result a.completed a.cancels a.udp_closes a.stream_closes e v.released in
      drained-IsAccounted result (a.completed + 1)
        (record a { results = results; completed = a.completed + 1 }) refl
        (omega (arith, rw q at v.total)) (l.1, l.2, l.3) v.timed
        (at_drain_idle a.place result _ a.clock e v.idle)

  take_activity-IsAccounted :
      (b : Bool) (a : Association E)
      → a.place ≡ looping
      → IsAccounted a
      → IsAccounted (take_activity b a)
  unfolding take_activity
  take_activity-IsAccounted false a e v = v
  take_activity-IsAccounted true a e v = record {
    total = v.total;
    released = v.released;
    timed = omega arith;
    idle = rw e tt;
  }

  fire_if-IsAccounted :
      (b : Bool) (a : Association E)
      → leb a.timer a.clock ≡ b
      → a.place ≡ looping
      → IsAccounted a
      → IsAccounted (fire_if b a)
  unfolding fire_if
  fire_if-IsAccounted false a q e v = v
  fire_if-IsAccounted true a q e v =
      finish_in_loop deadline_exceeded a e v (omega (arith, v.timed, leb→le a.timer a.clock q))

  see_parent-IsAccounted :
      (c : Option E) (a : Association E)
      → a.place ≡ looping
      → IsAccounted a
      → IsAccounted (see_parent c a)
  unfolding see_parent
  see_parent-IsAccounted none a e v = v
  see_parent-IsAccounted (some x) a e v = finish_in_loop (parent_cause x) a e v tt

  see_stream-IsAccounted :
      (c : Option E) (a : Association E)
      → a.place ≡ looping
      → IsAccounted a
      → IsAccounted (see_stream c a)
  unfolding see_stream
  see_stream-IsAccounted none a e v = v
  see_stream-IsAccounted (some x) a e v = finish_in_loop (stream_cause x) a e v tt

  note_if-IsAccounted : (b : Bool) (a : Association E) → IsAccounted a → IsAccounted (note_if b a)
  unfolding note_if
  note_if-IsAccounted false a v = v
  note_if-IsAccounted true a v = record {
    total = v.total;
    released = v.released;
    timed = v.timed;
    idle = v.idle;
  }

  return_h3-IsAccounted :
      (b : Bool) (r : Option E) (a : Association E)
      → a.h3_runs ≡ b
      → IsAccounted a
      → IsAccounted (return_h3 b r a)
  unfolding return_h3
  return_h3-IsAccounted false r a e v = v
  return_h3-IsAccounted true r a e v = record {
    total = omega (arith, rw e at v.total, length-append a.results (r ∷ []));
    released = v.released;
    timed = v.timed;
    idle = v.idle;
  }

  return_udp-IsAccounted :
      (b : Bool) (r : Option E) (a : Association E)
      → a.udp_runs ≡ b
      → IsAccounted a
      → IsAccounted (return_udp b r a)
  unfolding return_udp
  return_udp-IsAccounted false r a e v = v
  return_udp-IsAccounted true r a e v = record {
    total = omega (arith, rw e at v.total, length-append a.results (r ∷ []));
    released = v.released;
    timed = v.timed;
    idle = v.idle;
  }

  step-IsAccounted :
      (a : Association E) (action : Action E) → IsAccounted a → IsAccounted (step a action)
  unfolding step
  step-IsAccounted a (passes d) v = record {
    total = v.total;
    released = v.released;
    timed = v.timed;
    idle = IsIdle-later a.place _ a.clock d v.idle;
  }
  step-IsAccounted a (notes h3_to_udp) v = note_if-IsAccounted a.h3_runs a v
  step-IsAccounted a (notes udp_to_h3) v = note_if-IsAccounted a.udp_runs a v
  step-IsAccounted a (pump_returns h3_to_udp r) v = return_h3-IsAccounted a.h3_runs r a refl v
  step-IsAccounted a (pump_returns udp_to_h3 r) v = return_udp-IsAccounted a.udp_runs r a refl v
  step-IsAccounted a (parent_ends e) v = record {
    total = v.total;
    released = v.released;
    timed = v.timed;
    idle = v.idle;
  }
  step-IsAccounted a (stream_ends e) v = record {
    total = v.total;
    released = v.released;
    timed = v.timed;
    idle = v.idle;
  }
  step-IsAccounted a takes_result v = take_result-IsAccounted a.place a.results a refl refl v
  step-IsAccounted a takes_activity v =
      at_looping-IsAccounted a.place _ a (λ e. take_activity-IsAccounted a.activity a e v) v
  step-IsAccounted a timer_fires v =
      at_looping-IsAccounted a.place _ a (λ e. fire_if-IsAccounted _ a refl e v) v
  step-IsAccounted a sees_parent v =
      at_looping-IsAccounted a.place _ a (λ e. see_parent-IsAccounted a.parent a e v) v
  step-IsAccounted a sees_stream v =
      at_looping-IsAccounted a.place _ a (λ e. see_stream-IsAccounted a.stream a e v) v

  run-IsAccounted :
      (actions : List (Action E)) (a : Association E) → IsAccounted a → IsAccounted (run a actions)
  unfolding run
  run-IsAccounted [] a v = v
  run-IsAccounted (x ∷ actions) a v = run-IsAccounted actions (step a x) (step-IsAccounted a x v)

  -- However the pumps, the clock, the request and the stream interleave with the run of an
  -- association: each of the two pumps still runs, or its result waits, or it has been received; the
  -- run returns only with both received, having called `cancel` and closed the socket and the stream
  -- once each; and it ends as idle only when the timeout has passed since activity was last taken up.
  pub run-begin-IsAccounted :
      (idle_timeout : ℕ) (parent stream : Option E) (actions : List (Action E))
      → IsAccounted (run (begin idle_timeout parent stream) actions)
  unfolding begin
  run-begin-IsAccounted idle_timeout parent stream actions =
      run-IsAccounted actions (begin idle_timeout parent stream) (record {
        total = refl;
        released = (refl, refl, refl, refl);
        timed = omega arith;
        idle = tt;
      })
