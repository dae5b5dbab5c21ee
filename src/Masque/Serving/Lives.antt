-- ===== src/Masque/Serving/Lives.antt =====
-- `serveConnectUDP` over `connectUDPAssociation.run`: the association's life as an interleaved run.
mod Tests
use forwardproxy.Base.{ℕ, ◌+◌, ◌≤◌, ◌≡◌, List, Option, none, some, arith}
use forwardproxy.Masque.Running.Releases.{IsAccounted}
use forwardproxy.Masque.Running.{
  Action, Association, Place, Result, begin, closed, deadline_exceeded as timer_expired,
  parent_cause, pump_error, returned, run, stream_cause,
}
use forwardproxy.Masque.Serving.{Ending, Outside, Reply, deadline_exceeded, other_end}
use forwardproxy.Masque.Target.{Target}
use forwardproxy.Policy.{resolve_target_check_acl}

-- What the result of a run is to `connectUDPAssociationCloseReason`, which tests the errors by
-- `classify`.
unfoldable pub ending_of : {E : Type 0} → (E → Ending) → Result E → Ending
ending_of classify closed = other_end
ending_of classify timer_expired = deadline_exceeded
ending_of classify (pump_error e) = classify e
ending_of classify (parent_cause e) = classify e
ending_of classify (stream_cause e) = classify e

module _ {E : Type 0} (out : Outside) (classify : E → Ending) (idle_timeout : ℕ)
    (parent stream : Option E) (actions : List (Action E)) where
  abbrev pub life : Association E
  life = run (begin idle_timeout parent stream) actions

  -- The association of this call is a run that has returned.
  pub record RunsAssociation : Type 0 where
    pub result : Result E
    pub returns : life.place ≡ returned result
    pub ends : out.ending ≡ ending_of classify result

  -- The error that a result passes on, if it is not the run's own.
  abbrev pub passed_on : Result E → Option E
  passed_on closed = none
  passed_on timer_expired = none
  passed_on (pump_error e) = some e
  passed_on (parent_cause e) = some e
  passed_on (stream_cause e) = some e

  -- Why a run is recorded as idle: its own timer fired when the idle timeout had passed since the last
  -- activity that it took up, or an error that a pump, the request's context or the stream's gave it is
  -- a deadline's too.
  pub data Overdue (result : Result E) : Type 0 where
    timer_fired :
        result ≡ timer_expired → life.last_reset + life.idle_timeout ≤ life.clock → Overdue result
    other_deadline :
        (e : E) → passed_on result ≡ some e → classify e ≡ deadline_exceeded → Overdue result
