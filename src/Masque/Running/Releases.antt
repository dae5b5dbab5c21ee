-- ===== src/Masque/Running/Releases.antt =====
-- What the run of an association has released at each place, and what its parts keep of that.
use forwardproxy.Base.{
  ℕ, zero, suc, ◌+◌, ◌<◌, ◌≤◌, Bool, true, false, Option, none, some, ◌≡◌, refl, arith, length,
}
use forwardproxy.Masque.Running.{
  Association, Place, Result, at_looping, closed, deadline_exceeded, drained, draining, finish,
  looping, parent_cause, pump_error, result_of, returned, stream_cause,
}

abbrev pub running : Bool → ℕ
running true = 1
running false = 0

module _ {E : Type 0} where
  -- By where the run stands: the results received, and the calls of `cancel`, of the socket's `Close`
  -- and of the stream's.
  abbrev pub Released : Place E → ℕ → ℕ → ℕ → ℕ → Type 0
  Released looping completed c u s = (completed ≡ 0) × (c ≡ 0) × (u ≡ 0) × (s ≡ 0)
  Released (draining result) completed c u s = (completed < 2) × (c ≡ 1) × (u ≡ 1) × (s ≡ 0)
  Released (returned result) completed c u s = (completed ≡ 2) × (c ≡ 1) × (u ≡ 1) × (s ≡ 1)

  -- A result of the idle timer comes when it is due.
  abbrev pub IsTimely : Result E → ℕ → ℕ → Type 0
  IsTimely deadline_exceeded due clock = due ≤ clock
  IsTimely closed due clock = Unit
  IsTimely (pump_error e) due clock = Unit
  IsTimely (parent_cause e) due clock = Unit
  IsTimely (stream_cause e) due clock = Unit

  abbrev pub IsIdle : Place E → ℕ → ℕ → Type 0
  IsIdle looping due clock = Unit
  IsIdle (draining result) due clock = IsTimely result due clock
  IsIdle (returned result) due clock = IsTimely result due clock

  pub record IsAccounted (a : Association E) : Type 0 where
    pub total : a.completed + length a.results + running a.h3_runs + running a.udp_runs ≡ 2
    pub released : Released a.place a.completed a.cancels a.udp_closes a.stream_closes
    pub timed : a.timer ≡ a.last_reset + a.idle_timeout
    pub idle : IsIdle a.place (a.last_reset + a.idle_timeout) a.clock

  pub drained-IsAccounted :
      (result : Result E) (n : ℕ) (a : Association E)
      → n ≡ a.completed
      → a.completed + length a.results + running a.h3_runs + running a.udp_runs ≡ 2
      → (a.cancels ≡ 1) × (a.udp_closes ≡ 1) × (a.stream_closes ≡ 0)
      → a.timer ≡ a.last_reset + a.idle_timeout
      → IsIdle (draining result) (a.last_reset + a.idle_timeout) a.clock
      → IsAccounted (drained result n a)
  unfolding drained
  drained-IsAccounted result zero a e t r m i = record {
    total = t;
    released = (omega (arith, e), r.0, r.1, r.2);
    timed = m;
    idle = i;
  }
  drained-IsAccounted result (suc zero) a e t r m i = record {
    total = t;
    released = (omega (arith, e), r.0, r.1, r.2);
    timed = m;
    idle = i;
  }
  drained-IsAccounted result (suc (suc n)) a e t r m i = record {
    total = t;
    released = (omega (arith, e, t), r.0, r.1, omega (arith, r.2));
    timed = m;
    idle = i;
  }

  IsTimely-later :
      (result : Result E) (due clock d : ℕ)
      → IsTimely result due clock
      → IsTimely result due (clock + d)
  IsTimely-later deadline_exceeded due clock d h = omega (arith, h)
  IsTimely-later closed due clock d h = tt
  IsTimely-later (pump_error e) due clock d h = tt
  IsTimely-later (parent_cause e) due clock d h = tt
  IsTimely-later (stream_cause e) due clock d h = tt

  pub IsIdle-later : (p : Place E) (due clock d : ℕ) → IsIdle p due clock → IsIdle p due (clock + d)
  IsIdle-later looping due clock d h = tt
  IsIdle-later (draining result) due clock d h = IsTimely-later result due clock d h
  IsIdle-later (returned result) due clock d h = IsTimely-later result due clock d h

  pub result_of-IsTimely : (r : Option E) (due clock : ℕ) → IsTimely (result_of r) due clock
  unfolding result_of
  result_of-IsTimely none due clock = tt
  result_of-IsTimely (some e) due clock = tt

  pub finish-IsAccounted :
      (result : Result E) (a : Association E)
      → a.completed + length a.results + running a.h3_runs + running a.udp_runs ≡ 2
      → (a.cancels ≡ 0) × (a.udp_closes ≡ 0) × (a.stream_closes ≡ 0)
      → a.timer ≡ a.last_reset + a.idle_timeout
      → IsTimely result (a.last_reset + a.idle_timeout) a.clock
      → IsAccounted (finish result a)
  unfolding finish
  finish-IsAccounted result a t r m i =
      drained-IsAccounted result a.completed
        (record a { cancels = a.cancels + 1; udp_closes = a.udp_closes + 1 }) refl t
        (omega (arith, r.0), omega (arith, r.1), r.2) m i

  -- In the loop nothing has been released.
  pub at_loop :
      (p : Place E) (c k u s : ℕ)
      → p ≡ looping
      → Released p c k u s
      → (c ≡ 0) × (k ≡ 0) × (u ≡ 0) × (s ≡ 0)
  at_loop p c k u s e h = rw e at h

  pub at_drain :
      (p : Place E) (result : Result E) (c k u s : ℕ)
      → p ≡ draining result
      → Released p c k u s
      → (c < 2) × (k ≡ 1) × (u ≡ 1) × (s ≡ 0)
  at_drain p result c k u s e h = rw e at h

  pub at_drain_idle :
      (p : Place E) (result : Result E) (due clock : ℕ)
      → p ≡ draining result
      → IsIdle p due clock
      → IsTimely result due clock
  at_drain_idle p result due clock e h = rw e at h

  pub at_looping-IsAccounted :
      (p : Place E) (next a : Association E)
      → (p ≡ looping → IsAccounted next)
      → IsAccounted a
      → IsAccounted (at_looping p next a)
  unfolding at_looping
  at_looping-IsAccounted looping next a f h = f refl
  at_looping-IsAccounted (draining result) next a f h = h
  at_looping-IsAccounted (returned result) next a f h = h

  pub finish_in_loop :
      (result : Result E) (a : Association E)
      → a.place ≡ looping
      → IsAccounted a
      → IsTimely result (a.last_reset + a.idle_timeout) a.clock
      → IsAccounted (finish result a)
  finish_in_loop result a e v i =
      let r = at_loop a.place a.completed a.cancels a.udp_closes a.stream_closes e v.released in
      finish-IsAccounted result a v.total (r.1, r.2, r.3) v.timed i
