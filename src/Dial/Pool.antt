-- ===== src/Dial/Pool.antt =====
-- connect_dial.go and connect_dial_incremental.go, the `start` closure that both races share: one
-- goroutine for each attempt, and who owns the connections that the attempts make. Connections are
-- numbers; `E` is the type of the errors.
pub mod Owners
use forwardproxy.Base.{
  ℕ, ◌+◌, Bool, true, false, List, [], ◌∷◌, ◌++◌, Option, none, some, ◌==◌, if◌then◌else◌,
  get_elem?, set,
}

-- What an attempt hands over.
pub data Result (E : Type 0) : Type 0 where
  made : ℕ → Result E
  failed : E → Result E

-- `taken` has handed its result over, `dropped` has met the context's end first.
pub data Attempt (E : Type 0) : Type 0 where
  dialing : Attempt E
  offering : Result E → Attempt E
  taken : Attempt E
  dropped : Attempt E

pub record Pool (E : Type 0) : Type 0 where
  pub attempts : List (Attempt E)
  -- The connections that dials have given, and those that have been closed.
  pub opened : List ℕ
  pub closed : List ℕ

abbrev pub as_list : Option ℕ → List ℕ
as_list none = []
as_list (some c) = c ∷ []

module _ {E : Type 0} where
  abbrev pub empty_pool : Pool E
  empty_pool = record { attempts = []; opened = []; closed = [] }

  unfoldable pub launch : Pool E → Pool E
  launch p = record p { attempts = p.attempts ++ dialing ∷ [] }

  abbrev pub first_error : Option E → Option E → Option E
  first_error none err = err
  first_error (some e) err = some e

  -- What is left of a dial's connection and error: the result, and the connection that is closed.
  unfoldable pub settled : E → Option ℕ → Option E → Result E × List ℕ
  settled unconnected none none = (failed unconnected, [])
  settled unconnected (some c) none = (made c, [])
  settled unconnected none (some e) = (failed e, [])
  settled unconnected (some c) (some e) = (failed e, c ∷ [])

  ended_attempt : Pool E → ℕ → Option ℕ → Result E × List ℕ → Pool E
  ended_attempt p i conn (result, shut) = record p {
    attempts = set p.attempts i (offering result);
    opened = as_list conn ++ p.opened;
    closed = shut ++ p.closed;
  }

  end_of : E → Pool E → ℕ → Option ℕ → Option E → Option E → Option (Attempt E) → Pool E
  unfolding ended_attempt settled
  end_of unconnected p i conn err attempt_err (some dialing) =
      ended_attempt p i conn (settled unconnected conn (first_error attempt_err err))
  end_of unconnected p i conn err attempt_err _ = p

  -- `h.dialContext` of attempt `i` returns, and the attempt's own context has or has not ended.
  unfoldable pub dial_ends : E → ℕ → Option ℕ → Option E → Option E → Pool E → Pool E
  unfolding end_of
  dial_ends unconnected i conn err attempt_err p =
      end_of unconnected p i conn err attempt_err (get_elem? p.attempts i)

  drop_of : Pool E → ℕ → Option (Attempt E) → Pool E
  drop_of p i (some (offering (made c))) = record p {
    attempts = set p.attempts i dropped;
    closed = c ∷ p.closed;
  }
  drop_of p i (some (offering (failed e))) = record p { attempts = set p.attempts i dropped }
  drop_of p i _ = p

  -- The attempt's select takes the end of the context.
  unfoldable pub drop_attempt : ℕ → Pool E → Pool E
  unfolding drop_of
  drop_attempt i p = drop_of p i (get_elem? p.attempts i)

  abbrev pub offer_of : Option (Attempt E) → Option (Result E)
  offer_of (some (offering result)) = some result
  offer_of (some dialing) = none
  offer_of (some taken) = none
  offer_of (some dropped) = none
  offer_of none = none

  -- What attempt `i` has to give to the race, and the pool once its select has given it.
  abbrev pub offered : ℕ → Pool E → Option (Result E)
  offered i p = offer_of (get_elem? p.attempts i)

  unfoldable pub take_result : ℕ → Pool E → Pool E
  take_result i p = record p { attempts = set p.attempts i taken }

  unfoldable pub close_conn : ℕ → Pool E → Pool E
  close_conn c p = record p { closed = c ∷ p.closed }
