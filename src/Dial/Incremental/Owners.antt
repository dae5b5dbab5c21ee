-- ===== src/Dial/Incremental/Owners.antt =====
-- Who owns the connections of the race, and what it counts as pending.
use forwardproxy.Acl.{AclRule}
use forwardproxy.Base.{
  ℕ, ◌+◌, ◌-◌, Bool, true, false, ◌&&◌, List, [], ◌∷◌, Option, none, some, Bytes, ◌≡◌, refl, sym,
  ◌∙◌, arith, All, leb, ltb, ◌==◌, Bool-cases, inl, inr,
}
use forwardproxy.Dial.Feed.{Advanced, Lookup, candidate, idle}
use forwardproxy.Dial.Incremental.{
  Action, Ended, Place, Race, advanced, cancels, check, checking, checks, choosing, close_if,
  closes_feed, context_ended, drop_if, drops, ends_dial, finish, fire, fires, gave_up, look_up,
  looks_up, new_race, passes, receive, receive_made, receives, returned, run, see_end, sees_end,
  shorten, start, start_if, step, minimum_delay, wake, wakes, won,
}
use forwardproxy.Dial.Incremental.Steps.{
  at_checking-keeps, at_choosing-keeps, run-keeps, unless-keeps,
}
use forwardproxy.Dial.Interleave.{Family, Network, v4, v6}
use forwardproxy.Dial.Pool.Owners.{
  Owned, close_conn-Owned, count, dial_ends-Owned, dial_ends-pending_of, drop_attempt-Owned,
  drop_attempt-pending_of, held-over, is_over, launch-Owned, launch-pending_of, pending_of,
  take_result-Owned, take_result-pending_of,
}
use forwardproxy.Dial.Pool.{Result, close_conn, failed, made, offered, take_result}
use forwardproxy.Std.Net.{IpText}

module _ {E : Type 0} where
  -- The connections that the race itself has: the winner's, once it has returned with it.
  abbrev pub winners : Place E → List ℕ
  winners checking = []
  winners choosing = []
  winners (returned (won c)) = c ∷ []
  winners (returned (gave_up e)) = []
  winners (returned (context_ended e)) = []

  -- A race that has given up has no result left to receive.
  abbrev pub IsQuiet : Place E → ℕ → Type 0
  IsQuiet (returned (gave_up e)) pending = pending ≡ 0
  IsQuiet (returned (won c)) pending = Unit
  IsQuiet (returned (context_ended e)) pending = Unit
  IsQuiet checking pending = Unit
  IsQuiet choosing pending = Unit

  pub record IsOwned (r : Race E) : Type 0 where
    pub owned : Owned r.pool (winners r.place)
    pub pending_is : r.pending ≡ pending_of r.pool
    pub quiet : IsQuiet r.place r.pending

  -- A race in its loop, by what is left when the place is put aside.
  record IsRunning (r : Race E) : Type 0 where
    owned : Owned r.pool []
    pending_is : r.pending ≡ pending_of r.pool

  checking-IsRunning : (r : Race E) → r.place ≡ checking → IsOwned r → IsRunning r
  checking-IsRunning r e v = record { owned = λ x. rw e at (v.owned x); pending_is = v.pending_is }

  choosing-IsRunning : (r : Race E) → r.place ≡ choosing → IsOwned r → IsRunning r
  choosing-IsRunning r e v = record { owned = λ x. rw e at (v.owned x); pending_is = v.pending_is }

  finish-IsOwned :
      (canceled : E) (out : Ended E) (r : Race E)
      → Owned r.pool (winners (returned out))
      → r.pending ≡ pending_of r.pool
      → IsQuiet (returned out) r.pending
      → IsOwned (finish canceled out r)
  unfolding finish
  finish-IsOwned canceled out r h p q = record { owned = h; pending_is = p; quiet = q }

  start_if-IsOwned :
      (canceled : E) (text : IpText) (delay : ℕ) (address : Bytes) (c : Option E) (r : Race E)
      → IsRunning r
      → IsOwned (start_if canceled text delay address c r)
  unfolding start_if start
  start_if-IsOwned canceled text delay address none r v = record {
    owned = launch-Owned r.pool [] v.owned;
    pending_is = omega (arith, v.pending_is, launch-pending_of r.pool);
    quiet = tt;
  }
  start_if-IsOwned canceled text delay address (some e) r v =
      finish-IsOwned canceled (context_ended e) r v.owned v.pending_is tt

  keep_choosing-IsOwned : (r : Race E) → IsRunning r → IsOwned (record r { place = choosing })
  keep_choosing-IsOwned r v = record { owned = v.owned; pending_is = v.pending_is; quiet = tt }

  advanced-IsOwned :
      (canceled : E) (text : IpText) (delay : ℕ) (a : Advanced E) (r : Race E)
      → IsRunning r
      → IsOwned (advanced canceled text delay a r)
  unfolding advanced
  advanced-IsOwned canceled text delay (candidate address feed) r v =
      start_if-IsOwned canceled text delay address r.context_error (record r { feed = feed })
        (record { owned = v.owned; pending_is = v.pending_is })
  advanced-IsOwned canceled text delay (idle closed empty) r v =
      elim (Bool-cases (closed && empty && r.pending == 0)) [
        | inl h ↦
            rw h (finish-IsOwned canceled (gave_up _) r v.owned v.pending_is (ground (arith, h)))
        | inr h ↦ rw h (keep_choosing-IsOwned r v)
      ]

  check-IsOwned :
      (canceled : E) (text : IpText) (delay : ℕ) (r : Race E)
      → IsRunning r
      → IsOwned (check canceled text delay r)
  unfolding check
  check-IsOwned canceled text delay r v = advanced-IsOwned canceled text delay _ r v

  shorten-IsOwned :
      (ready : ℕ) (t : Option ℕ) (r : Race E) → IsRunning r → IsOwned (shorten ready t r)
  unfolding shorten
  shorten-IsOwned ready none r v = record { owned = v.owned; pending_is = v.pending_is; quiet = tt }
  shorten-IsOwned ready (some t) r v = elim (Bool-cases (ltb ready t)) [
    | inl h ↦ rw h (record { owned = v.owned; pending_is = v.pending_is; quiet = tt })
    | inr h ↦ rw h (record { owned = v.owned; pending_is = v.pending_is; quiet = tt })
  ]

  receive_made-IsOwned :
      (canceled : E) (c : ℕ) (err : Option E) (r : Race E)
      → Owned r.pool (c ∷ [])
      → r.pending ≡ pending_of r.pool
      → IsOwned (receive_made canceled c err r)
  unfolding receive_made close_conn
  receive_made-IsOwned canceled c none r h p = finish-IsOwned canceled (won c) r h p tt
  receive_made-IsOwned canceled c (some e) r h p =
      finish-IsOwned canceled (context_ended e) (record r { pool = close_conn c r.pool })
        (close_conn-Owned c r.pool [] h) p tt

  receive-IsOwned :
      (canceled : E) (i : ℕ) (out : Option (Result E)) (r : Race E)
      → offered i r.pool ≡ out
      → IsRunning r
      → IsOwned r
      → IsOwned (receive canceled i out r)
  unfolding receive
  receive-IsOwned canceled i none r q v whole = whole
  receive-IsOwned canceled i (some (failed e)) r q v whole =
      shorten-IsOwned (r.last_start + minimum_delay) r.ready_at
        (record r { pool = take_result i r.pool; pending = r.pending - 1; last_err = some e })
        (record {
          owned = take_result-Owned i r.pool (failed e) [] q v.owned;
          pending_is = omega (arith, v.pending_is, take_result-pending_of i r.pool (failed e) q);
        })
  receive-IsOwned canceled i (some (made c)) r q v whole =
      receive_made-IsOwned canceled c r.context_error
        (record r { pool = take_result i r.pool; pending = r.pending - 1 })
        (take_result-Owned i r.pool (made c) [] q v.owned)
        (omega (arith, v.pending_is, take_result-pending_of i r.pool (made c) q))

  see_end-IsOwned :
      (canceled : E) (c : Option E) (r : Race E)
      → IsRunning r
      → IsOwned r
      → IsOwned (see_end canceled c r)
  unfolding see_end
  see_end-IsOwned canceled none r v whole = whole
  see_end-IsOwned canceled (some e) r v whole =
      finish-IsOwned canceled (context_ended e) r v.owned v.pending_is tt

  wake-IsOwned : (b : Bool) (r : Race E) → IsRunning r → IsOwned r → IsOwned (wake b r)
  unfolding wake
  wake-IsOwned false r v whole = whole
  wake-IsOwned true r v whole = record { owned = v.owned; pending_is = v.pending_is; quiet = tt }

  fire-IsOwned : (t : Option ℕ) (r : Race E) → IsRunning r → IsOwned r → IsOwned (fire t r)
  unfolding fire
  fire-IsOwned none r v whole = whole
  fire-IsOwned (some t) r v whole = elim (Bool-cases (leb t r.clock)) [
    | inl h ↦ rw h (record { owned = v.owned; pending_is = v.pending_is; quiet = tt })
    | inr h ↦ rw h whole
  ]

  drop_if-IsOwned : (i : ℕ) (c : Option E) (r : Race E) → IsOwned r → IsOwned (drop_if i c r)
  unfolding drop_if
  drop_if-IsOwned i none r v = v
  drop_if-IsOwned i (some e) r v = record {
    owned = drop_attempt-Owned i r.pool (winners r.place) v.owned;
    pending_is = v.pending_is ∙ sym (drop_attempt-pending_of i r.pool);
    quiet = v.quiet;
  }

  close_if-IsOwned : (b : Bool) (r : Race E) → IsOwned r → IsOwned (close_if b r)
  unfolding close_if
  close_if-IsOwned true r v = record { owned = v.owned; pending_is = v.pending_is; quiet = v.quiet }
  close_if-IsOwned false r v = v

  module _ (text : IpText) (rules : List AclRule) (network : Network) (host port : Bytes) where
    look_up-IsOwned :
        (family : Family) (found : Lookup E) (r : Race E)
        → IsOwned r
        → IsOwned (look_up text rules network host port family found r)
    unfolding look_up
    look_up-IsOwned v4 found r v =
        unless-keeps IsOwned r.found_v4 _ r
          (record { owned = v.owned; pending_is = v.pending_is; quiet = v.quiet }) v
    look_up-IsOwned v6 found r v =
        unless-keeps IsOwned r.found_v6 _ r
          (record { owned = v.owned; pending_is = v.pending_is; quiet = v.quiet }) v

    module _ (unconnected canceled : E) where
      step-IsOwned :
          (r : Race E) (a : Action E)
          → IsOwned r
          → IsOwned (step text rules network host port unconnected canceled r a)
      unfolding step
      step-IsOwned r (passes d) v = record {
        owned = v.owned;
        pending_is = v.pending_is;
        quiet = v.quiet;
      }
      step-IsOwned r (cancels e) v = record {
        owned = v.owned;
        pending_is = v.pending_is;
        quiet = v.quiet;
      }
      step-IsOwned r (looks_up family found) v = look_up-IsOwned family found r v
      step-IsOwned r closes_feed v = close_if-IsOwned _ r v
      step-IsOwned r (ends_dial i conn err attempt_err) v = record {
        owned = dial_ends-Owned unconnected i conn err attempt_err r.pool (winners r.place) v.owned;
        pending_is =
            v.pending_is ∙ sym (dial_ends-pending_of unconnected i conn err attempt_err r.pool);
        quiet = v.quiet;
      }
      step-IsOwned r (drops i) v = drop_if-IsOwned i r.context_error r v
      step-IsOwned r (checks delay) v =
          at_checking-keeps IsOwned r.place _ r
            (λ e. check-IsOwned canceled text delay r (checking-IsRunning r e v)) v
      step-IsOwned r sees_end v =
          at_choosing-keeps IsOwned r.place _ r
            (λ e. see_end-IsOwned canceled r.context_error r (choosing-IsRunning r e v) v) v
      step-IsOwned r wakes v =
          at_choosing-keeps IsOwned r.place _ r
            (λ e. wake-IsOwned r.feed.wake r (choosing-IsRunning r e v) v) v
      step-IsOwned r fires v =
          at_choosing-keeps IsOwned r.place _ r
            (λ e. fire-IsOwned r.timer r (choosing-IsRunning r e v) v) v
      step-IsOwned r (receives i) v =
          at_choosing-keeps IsOwned r.place _ r
            (λ e. receive-IsOwned canceled i _ r refl (choosing-IsRunning r e v) v) v

      -- However lookups, dials, the clock and the request's end interleave with the race: every
      -- connection that a dial has given has been closed, or is offered by an attempt, or is the one
      -- that the call returned; the pending count is the number of attempts whose result the race has
      -- not received; and the race gives up only with none of these left.
      pub run-new_race-IsOwned :
          (context_error : Option E) (actions : List (Action E))
          → IsOwned (
              run text rules network host port unconnected canceled
                (new_race context_error)
                actions)
      run-new_race-IsOwned c actions =
          run-keeps text rules network host port unconnected canceled IsOwned step-IsOwned actions
            (new_race c) (record { owned = λ x. refl; pending_is = refl; quiet = tt })

      -- Once all attempts have ended, nothing leaks and nothing is closed twice: the connections that
      -- the dials gave are those that were closed and, where the call returned a connection, that one.
      pub run-new_race-IsOver :
          (context_error : Option E) (actions : List (Action E)) (x : ℕ)
          → All
              (λ a. is_over a ≡ true)
              (run text rules network host port unconnected canceled
                (new_race context_error)
                actions).pool.attempts
          → let r =
              run text rules network host port unconnected canceled
                (new_race context_error)
                actions in
            count x r.pool.opened ≡ count x r.pool.closed + count x (winners r.place)
      run-new_race-IsOver c actions x over =
          let r = run text rules network host port unconnected canceled (new_race c) actions in
          omega (arith, (run-new_race-IsOwned c actions).owned x, held-over x r.pool.attempts over)
