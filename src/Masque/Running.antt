-- ===== src/Masque/Running.antt =====
-- native_udp_association.go, `connectUDPAssociation.run`: the two pumps, the idle timer, the ends of
-- the request and of the stream, and the loop, as interleaved steps. Of a pump there is what the loop
-- sees: the activity that it notes and the error that it returns with. `E` is the type of the errors.
pub mod Releases
pub mod Accounts
pub mod Finishing
mod Tests
use forwardproxy.Base.{
  ℕ, zero, suc, ◌+◌, Bool, true, false, List, [], ◌∷◌, ◌++◌, Option, none, some, leb,
}

pub data Pump : Type 0 where
  h3_to_udp udp_to_h3 : Pump

-- `closed` is `errConnectUDPClosed`, for a pump that returns nil.
pub data Result (E : Type 0) : Type 0 where
  closed deadline_exceeded : Result E
  pump_error parent_cause stream_cause : E → Result E

-- In the loop; behind it, while results are missing; gone.
pub data Place (E : Type 0) : Type 0 where
  looping : Place E
  draining returned : Result E → Place E

pub record Association (E : Type 0) : Type 0 where
  pub idle_timeout : ℕ
  pub clock : ℕ
  -- When the timer fires, and when it was last set.
  pub timer : ℕ
  pub last_reset : ℕ
  -- Whether the one-place channel of activity is full; the channel of results.
  pub activity : Bool
  pub results : List (Option E)
  pub h3_runs : Bool
  pub udp_runs : Bool
  pub parent : Option E
  pub stream : Option E
  pub completed : ℕ
  pub place : Place E
  -- The calls of `cancel`, of `a.udp.Close` and of `a.stream.Close`.
  pub cancels : ℕ
  pub udp_closes : ℕ
  pub stream_closes : ℕ

pub data Action (E : Type 0) : Type 0 where
  passes : ℕ → Action E
  notes : Pump → Action E
  pump_returns : Pump → Option E → Action E
  parent_ends stream_ends : E → Action E
  -- The cases of the select, the first of which is also the receive behind the loop.
  takes_result takes_activity timer_fires sees_parent sees_stream : Action E

module _ {E : Type 0} where
  abbrev pub first_cause : E → Option E → Option E
  first_cause e none = some e
  first_cause e (some d) = some d

  unfoldable pub begin : ℕ → Option E → Option E → Association E
  begin idle_timeout parent stream = record {
    idle_timeout = idle_timeout;
    clock = 0;
    timer = idle_timeout;
    last_reset = 0;
    activity = false;
    results = [];
    h3_runs = true;
    udp_runs = true;
    parent = parent;
    stream = stream;
    completed = 0;
    place = looping;
    cancels = 0;
    udp_closes = 0;
    stream_closes = 0;
  }

  -- Where the loop over the missing results stands.
  pub drained : Result E → ℕ → Association E → Association E
  drained result (suc (suc n)) a = record a {
    place = returned result;
    stream_closes = a.stream_closes + 1;
  }
  drained result (suc zero) a = record a { place = draining result }
  drained result zero a = record a { place = draining result }

  -- The loop has a result: `cancel`, the stream's halves and `a.udp.Close`.
  pub finish : Result E → Association E → Association E
  unfolding drained
  finish result a =
      drained result a.completed
        (record a { cancels = a.cancels + 1; udp_closes = a.udp_closes + 1 })

  pub result_of : Option E → Result E
  result_of none = closed
  result_of (some e) = pump_error e

  -- A receive from the results, in the loop and behind it.
  take_result : Place E → List (Option E) → Association E → Association E
  unfolding finish drained result_of
  take_result looping (r ∷ results) a =
      finish (result_of r) (record a { results = results; completed = a.completed + 1 })
  take_result (draining result) (r ∷ results) a =
      drained result (a.completed + 1) (record a { results = results; completed = a.completed + 1 })
  take_result looping [] a = a
  take_result (draining result) [] a = a
  take_result (returned result) results a = a

  take_activity : Bool → Association E → Association E
  take_activity false a = a
  take_activity true a = record a {
    activity = false;
    timer = a.clock + a.idle_timeout;
    last_reset = a.clock;
  }

  fire_if : Bool → Association E → Association E
  unfolding finish
  fire_if false a = a
  fire_if true a = finish deadline_exceeded a

  see_parent : Option E → Association E → Association E
  unfolding finish
  see_parent none a = a
  see_parent (some e) a = finish (parent_cause e) a

  see_stream : Option E → Association E → Association E
  unfolding finish
  see_stream none a = a
  see_stream (some e) a = finish (stream_cause e) a

  note_if : Bool → Association E → Association E
  note_if false a = a
  note_if true a = record a { activity = true }

  return_h3 : Bool → Option E → Association E → Association E
  return_h3 false r a = a
  return_h3 true r a = record a { h3_runs = false; results = a.results ++ r ∷ [] }

  return_udp : Bool → Option E → Association E → Association E
  return_udp false r a = a
  return_udp true r a = record a { udp_runs = false; results = a.results ++ r ∷ [] }

  pub at_looping : Place E → Association E → Association E → Association E
  at_looping looping next a = next
  at_looping (draining result) next a = a
  at_looping (returned result) next a = a

  unfoldable pub step : Association E → Action E → Association E
  unfolding take_result take_activity fire_if see_parent see_stream note_if return_h3 return_udp
      at_looping
  step a (passes d) = record a { clock = a.clock + d }
  step a (notes h3_to_udp) = note_if a.h3_runs a
  step a (notes udp_to_h3) = note_if a.udp_runs a
  step a (pump_returns h3_to_udp r) = return_h3 a.h3_runs r a
  step a (pump_returns udp_to_h3 r) = return_udp a.udp_runs r a
  step a (parent_ends e) = record a { parent = first_cause e a.parent }
  step a (stream_ends e) = record a { stream = first_cause e a.stream }
  step a takes_result = take_result a.place a.results a
  step a takes_activity = at_looping a.place (take_activity a.activity a) a
  step a timer_fires = at_looping a.place (fire_if (leb a.timer a.clock) a) a
  step a sees_parent = at_looping a.place (see_parent a.parent a) a
  step a sees_stream = at_looping a.place (see_stream a.stream a) a

  unfoldable pub run : Association E → List (Action E) → Association E
  unfolding step
  run a [] = a
  run a (action ∷ actions) = run (step a action) actions
