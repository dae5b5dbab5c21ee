-- ===== src/Dial/Addresses/Outcomes.antt =====
-- What a call of `dialTCPAddresses` starts, owns and ends with.
use forwardproxy.Base.{
  ℕ, ◌+◌, ◌-◌, List, [], ◌∷◌, ◌++◌, Option, none, some, Bytes, ◌≡◌, refl, sym, ◌∙◌, arith, leb,
  ◌==◌, ==_iff, Bool-cases, inl, inr,
}
use forwardproxy.Dial.Addresses.{
  Action, Call, cancels, choosing, context_ended, dial_tcp_addresses, drop_if, drops, ends_dial,
  fire, fires, fresh, gave_up, opened_with, passes, receive, receive_failed, receive_made, receives,
  run, see_end, sees_end, start_next, step, won,
}
use forwardproxy.Dial.Incremental.{minimum_delay}
use Prim.Native.Nat.{max}
use forwardproxy.Dial.Interleave.{Network, interleave_tcp_addresses}
use forwardproxy.Dial.Pool.Owners.{
  Owned, close_conn-Owned, dial_ends-Owned, dial_ends-pending_of, drop_attempt-Owned,
  drop_attempt-pending_of, pending_of, take_result-Owned, take_result-pending_of,
}
use forwardproxy.Dial.Pool.{Result, close_conn, failed, made, offered, take_result}
use forwardproxy.Std.Net.{IpText}
use forwardproxy.Dial.Addresses.Soundness.{
  winners, IsSound, IsRunning, choosing-IsRunning, choosing-IsSound, retimed-IsSound,
  at_choosing-IsSound, finish-IsSound, start_if-IsSound,
}

module _ {E : Type 0} (order : List Bytes) where
  receive_made-IsSound :
      (canceled : E) (c : ℕ) (err : Option E) (r : Call E)
      → r.started ++ r.waiting ≡ order
      → Owned r.pool (c ∷ [])
      → r.pending ≡ pending_of r.pool
      → IsSound order (receive_made canceled c err r)
  unfolding receive_made close_conn
  receive_made-IsSound canceled c none r o h p = finish-IsSound order canceled (won c) r o h p tt
  receive_made-IsSound canceled c (some e) r o h p =
      finish-IsSound order canceled (context_ended e) (record r { pool = close_conn c r.pool }) o
        (close_conn-Owned c r.pool [] h) p tt

  receive_failed-IsSound :
      (canceled e : E) (waiting : List Bytes) (r : Call E)
      → r.place ≡ choosing
      → r.waiting ≡ waiting
      → IsRunning order r
      → IsSound order (receive_failed canceled e waiting r)
  unfolding receive_failed
  receive_failed-IsSound canceled e [] r p w v = elim (Bool-cases (r.pending == 0)) [
    | inl h ↦ rw h (
        finish-IsSound order canceled (gave_up e) r v.in_order v.owned v.pending_is
          (w, (==_iff r.pending 0).0 h))
    | inr h ↦ rw h (choosing-IsSound order r p v)
  ]
  receive_failed-IsSound canceled e (a ∷ rest) r p w v =
      retimed-IsSound order r (some (max r.clock (r.last_start + minimum_delay)))
        (choosing-IsSound order r p v)

  receive-IsSound :
      (canceled : E) (i : ℕ) (out : Option (Result E)) (r : Call E)
      → offered i r.pool ≡ out
      → r.place ≡ choosing
      → IsRunning order r
      → IsSound order r
      → IsSound order (receive canceled i out r)
  unfolding receive
  receive-IsSound canceled i none r q p v whole = whole
  receive-IsSound canceled i (some (made c)) r q p v whole =
      receive_made-IsSound canceled c r.context_error
        (record r { pool = take_result i r.pool; pending = r.pending - 1 }) v.in_order
        (take_result-Owned i r.pool (made c) [] q v.owned)
        (omega (arith, v.pending_is, take_result-pending_of i r.pool (made c) q))
  receive-IsSound canceled i (some (failed e)) r q p v whole =
      receive_failed-IsSound canceled e r.waiting
        (record r { pool = take_result i r.pool; pending = r.pending - 1 }) p refl
        (record {
          in_order = v.in_order;
          owned = take_result-Owned i r.pool (failed e) [] q v.owned;
          pending_is = omega (arith, v.pending_is, take_result-pending_of i r.pool (failed e) q);
        })

  see_end-IsSound :
      (canceled : E) (c : Option E) (r : Call E)
      → IsRunning order r
      → IsSound order r
      → IsSound order (see_end canceled c r)
  unfolding see_end
  see_end-IsSound canceled none r v whole = whole
  see_end-IsSound canceled (some e) r v whole =
      finish-IsSound order canceled (context_ended e) r v.in_order v.owned v.pending_is tt

  start_next-IsSound :
      (canceled : E) (delay : ℕ) (waiting : List Bytes) (r : Call E)
      → r.place ≡ choosing
      → r.waiting ≡ waiting
      → IsRunning order r
      → IsSound order (start_next canceled delay waiting r)
  unfolding start_next
  start_next-IsSound canceled delay [] r p w v =
      retimed-IsSound order r none (choosing-IsSound order r p v)
  start_next-IsSound canceled delay (a ∷ rest) r p w v =
      start_if-IsSound order canceled r.context_error a rest (r.clock + delay) r p w v

  fire-IsSound :
      (canceled : E) (delay : ℕ) (t : Option ℕ) (r : Call E)
      → r.place ≡ choosing
      → IsRunning order r
      → IsSound order r
      → IsSound order (fire canceled delay t r)
  unfolding fire
  fire-IsSound canceled delay none r p v whole = whole
  fire-IsSound canceled delay (some t) r p v whole = elim (Bool-cases (leb t r.clock)) [
    | inl h ↦ rw h (start_next-IsSound canceled delay r.waiting r p refl v)
    | inr h ↦ rw h whole
  ]

  drop_if-IsSound :
      (i : ℕ) (c : Option E) (r : Call E) → IsSound order r → IsSound order (drop_if i c r)
  unfolding drop_if
  drop_if-IsSound i none r v = v
  drop_if-IsSound i (some e) r v = record {
    in_order = v.in_order;
    owned = drop_attempt-Owned i r.pool (winners order r.place) v.owned;
    pending_is = v.pending_is ∙ sym (drop_attempt-pending_of i r.pool);
    done = v.done;
  }

  module _ (unconnected canceled : E) where
    step-IsSound :
        (r : Call E) (a : Action E)
        → IsSound order r
        → IsSound order (step unconnected canceled r a)
    unfolding step
    step-IsSound r (passes d) v = record {
      in_order = v.in_order;
      owned = v.owned;
      pending_is = v.pending_is;
      done = v.done;
    }
    step-IsSound r (cancels e) v = record {
      in_order = v.in_order;
      owned = v.owned;
      pending_is = v.pending_is;
      done = v.done;
    }
    step-IsSound r (ends_dial i conn err attempt_err) v = record {
      in_order = v.in_order;
      owned =
          dial_ends-Owned unconnected i conn err attempt_err r.pool (winners order r.place) v.owned;
      pending_is =
          v.pending_is ∙ sym (dial_ends-pending_of unconnected i conn err attempt_err r.pool);
      done = v.done;
    }
    step-IsSound r (drops i) v = drop_if-IsSound i r.context_error r v
    step-IsSound r sees_end v =
        at_choosing-IsSound order r.place _ r
          (λ e. see_end-IsSound canceled r.context_error r (choosing-IsRunning order r e v) v) v
    step-IsSound r (receives i) v =
        at_choosing-IsSound order r.place _ r
          (λ e. receive-IsSound canceled i _ r refl e (choosing-IsRunning order r e v) v) v
    step-IsSound r (fires delay) v =
        at_choosing-IsSound order r.place _ r
          (λ e. fire-IsSound canceled delay r.timer r e (choosing-IsRunning order r e v) v) v

    run-IsSound :
        (actions : List (Action E)) (r : Call E)
        → IsSound order r
        → IsSound order (run unconnected canceled r actions)
    unfolding run
    run-IsSound [] r v = v
    run-IsSound (a ∷ actions) r v = run-IsSound actions _ (step-IsSound r a v)

module _ {E : Type 0} (unconnected canceled : E) where
  opened_with-IsSound :
      (order : List Bytes) (c : Option E) → IsSound order (opened_with unconnected canceled c order)
  unfolding opened_with fresh
  opened_with-IsSound [] c = record {
    in_order = refl;
    owned = λ x. refl;
    pending_is = refl;
    done = refl;
  }
  opened_with-IsSound (a ∷ rest) c =
      start_if-IsSound (a ∷ rest) canceled c a rest 0 (fresh c (a ∷ rest)) refl refl
        (record { in_order = refl; owned = λ x. refl; pending_is = refl })

module _ {E : Type 0} (text : IpText) (network : Network) (unconnected canceled : E) where
  -- However dials, the clock and the request's end interleave with a call of `dialTCPAddresses`: it
  -- starts the addresses in the order of `interleaveTCPAddresses`, each once and none left out; every
  -- connection that a dial has given has been closed, or is offered by an attempt, or is the one that
  -- the call returned; and the call gives up only once it has started every address and received
  -- the result of every attempt.
  pub dial_tcp_addresses-IsSound :
      (context_error : Option E) (addresses : List Bytes) (actions : List (Action E))
      → IsSound
          (interleave_tcp_addresses text network addresses)
          (dial_tcp_addresses unconnected canceled text network context_error addresses actions)
  unfolding dial_tcp_addresses
  dial_tcp_addresses-IsSound c addresses actions =
      run-IsSound (interleave_tcp_addresses text network addresses) unconnected canceled actions _ (
        opened_with-IsSound unconnected canceled (interleave_tcp_addresses text network addresses)
          c)
