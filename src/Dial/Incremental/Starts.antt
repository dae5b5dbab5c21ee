-- ===== src/Dial/Incremental/Starts.antt =====
-- Which addresses the race dials.
use forwardproxy.Acl.{AclRule}
use forwardproxy.Base.{
  ℕ, ◌+◌, Bool, true, false, ◌&&◌, List, Option, none, some, Bytes, ◌≡◌, ◌⊎◌, inl, inr, refl, All,
  leb, ltb, ◌==◌, Bool-cases,
}
use forwardproxy.Dial.Feed.Allowed.{IsAllowed, OnlyAllowed, resolve-OnlyAllowed}
use forwardproxy.Dial.Feed.Pops.{Popped, advance-Popped, from_v4, from_v6}
use forwardproxy.Dial.Feed.{Advanced, Feed, Lookup, advance, candidate, close_feed, idle}
use forwardproxy.Dial.Incremental.Steps.{
  at_checking-keeps, at_choosing-keeps, run-keeps, unless-keeps,
}
use forwardproxy.Dial.Incremental.{
  Action, Race, advanced, cancels, check, checks, close_if, closes_feed, drop_if, drops, ends_dial,
  finish, fire, fires, is_due, look_up, looks_up, new_race, passes, receive, receive_made, receives,
  run, see_end, sees_end, shorten, start, start_if, step, wake, wakes, minimum_delay,
}
use forwardproxy.Dial.Interleave.{Family, Network, v4, v6}
use forwardproxy.Dial.Pool.{Result, failed, made, offered}
use forwardproxy.Std.Net.{IpText}

module _ (text : IpText) (rules : List AclRule) (network : Network) (host port : Bytes) where
  -- An address that the access list allows for this host, of either family.
  abbrev pub IsDialable : Bytes × ℕ → Type 0
  IsDialable (a, time) =
      IsAllowed text rules network host port v4 a ⊎ IsAllowed text rules network host port v6 a

  module _ {E : Type 0} where
    pub record StartsAllowed (r : Race E) : Type 0 where
      pub queued : OnlyAllowed text rules network host port r.feed
      pub dialled : All IsDialable r.starts

    Popped-OnlyAllowed :
        (f f' : Feed E) (a : Bytes) (time : ℕ)
        → Popped f a f'
        → OnlyAllowed text rules network host port f
        → OnlyAllowed text rules network host port f' × IsDialable (a, time)
    Popped-OnlyAllowed f f' a time (from_v4 rest e q) v =
        let both : IsAllowed text rules network host port v4 a
            × All (λ b. IsAllowed text rules network host port v4 b) rest =
          rw e at v.in_v4 in
        (rw q (record { in_v4 = both.1; in_v6 = v.in_v6 }), inl both.0)
    Popped-OnlyAllowed f f' a time (from_v6 rest e q) v =
        let both : IsAllowed text rules network host port v6 a
            × All (λ b. IsAllowed text rules network host port v6 b) rest =
          rw e at v.in_v6 in
        (rw q (record { in_v4 = v.in_v4; in_v6 = both.1 }), inr both.0)

    start_if-StartsAllowed :
        (canceled : E) (delay : ℕ) (a : Bytes) (c : Option E) (r : Race E)
        → IsDialable (a, r.clock + delay)
        → StartsAllowed r
        → StartsAllowed (start_if canceled text delay a c r)
    unfolding start_if start finish
    start_if-StartsAllowed canceled delay a none r d v = record {
      queued = v.queued;
      dialled = (d, v.dialled);
    }
    start_if-StartsAllowed canceled delay a (some e) r d v = record {
      queued = v.queued;
      dialled = v.dialled;
    }

    advanced-StartsAllowed :
        (canceled : E) (delay : ℕ) (a : Advanced E) (r : Race E)
        → advance (is_due r.ready_at r.clock) r.last_family r.feed ≡ a
        → StartsAllowed r
        → StartsAllowed (advanced canceled text delay a r)
    unfolding advanced finish
    advanced-StartsAllowed canceled delay (candidate a feed) r e v =
        let (_, p) = advance-Popped (is_due r.ready_at r.clock) r.last_family r.feed feed a e in
        let (q, d) = Popped-OnlyAllowed r.feed feed a (r.clock + delay) p v.queued in
        start_if-StartsAllowed canceled delay a r.context_error (record r { feed = feed }) d
          (record { queued = q; dialled = v.dialled })
    advanced-StartsAllowed canceled delay (idle closed empty) r e v =
        elim (Bool-cases (closed && empty && r.pending == 0)) [
          | inl h ↦ rw h (record { queued = v.queued; dialled = v.dialled })
          | inr h ↦ rw h (record { queued = v.queued; dialled = v.dialled })
        ]

    shorten-StartsAllowed :
        (ready : ℕ) (t : Option ℕ) (r : Race E)
        → StartsAllowed r
        → StartsAllowed (shorten ready t r)
    unfolding shorten
    shorten-StartsAllowed ready none r v = record { queued = v.queued; dialled = v.dialled }
    shorten-StartsAllowed ready (some t) r v = elim (Bool-cases (ltb ready t)) [
      | inl h ↦ rw h (record { queued = v.queued; dialled = v.dialled })
      | inr h ↦ rw h (record { queued = v.queued; dialled = v.dialled })
    ]

    receive_made-StartsAllowed :
        (canceled : E) (c : ℕ) (err : Option E) (r : Race E)
        → StartsAllowed r
        → StartsAllowed (receive_made canceled c err r)
    unfolding receive_made finish
    receive_made-StartsAllowed canceled c none r v = record {
      queued = v.queued;
      dialled = v.dialled;
    }
    receive_made-StartsAllowed canceled c (some e) r v = record {
      queued = v.queued;
      dialled = v.dialled;
    }

    receive-StartsAllowed :
        (canceled : E) (i : ℕ) (out : Option (Result E)) (r : Race E)
        → StartsAllowed r
        → StartsAllowed (receive canceled i out r)
    unfolding receive
    receive-StartsAllowed canceled i none r v = v
    receive-StartsAllowed canceled i (some (failed e)) r v =
        shorten-StartsAllowed (r.last_start + minimum_delay) r.ready_at _
          (record { queued = v.queued; dialled = v.dialled })
    receive-StartsAllowed canceled i (some (made c)) r v =
        receive_made-StartsAllowed canceled c r.context_error _
          (record { queued = v.queued; dialled = v.dialled })

    see_end-StartsAllowed :
        (canceled : E) (c : Option E) (r : Race E)
        → StartsAllowed r
        → StartsAllowed (see_end canceled c r)
    unfolding see_end finish
    see_end-StartsAllowed canceled none r v = v
    see_end-StartsAllowed canceled (some e) r v = record { queued = v.queued; dialled = v.dialled }

    same_queues :
        (f : Feed E) (b b' : Bool)
        → OnlyAllowed text rules network host port f
        → OnlyAllowed text rules network host port (record f { wake = b; closed = b' })
    same_queues f b b' v = record { in_v4 = v.in_v4; in_v6 = v.in_v6 }

    wake-StartsAllowed : (b : Bool) (r : Race E) → StartsAllowed r → StartsAllowed (wake b r)
    unfolding wake
    wake-StartsAllowed false r v = v
    wake-StartsAllowed true r v = record {
      queued = same_queues r.feed false r.feed.closed v.queued;
      dialled = v.dialled;
    }

    close_if-StartsAllowed :
        (b : Bool) (r : Race E) → StartsAllowed r → StartsAllowed (close_if b r)
    unfolding close_if close_feed
    close_if-StartsAllowed true r v = record {
      queued = same_queues r.feed true true v.queued;
      dialled = v.dialled;
    }
    close_if-StartsAllowed false r v = v

    fire-StartsAllowed : (t : Option ℕ) (r : Race E) → StartsAllowed r → StartsAllowed (fire t r)
    unfolding fire
    fire-StartsAllowed none r v = v
    fire-StartsAllowed (some t) r v = elim (Bool-cases (leb t r.clock)) [
      | inl h ↦ rw h (record { queued = v.queued; dialled = v.dialled })
      | inr h ↦ rw h v
    ]

    drop_if-StartsAllowed :
        (i : ℕ) (c : Option E) (r : Race E) → StartsAllowed r → StartsAllowed (drop_if i c r)
    unfolding drop_if
    drop_if-StartsAllowed i none r v = v
    drop_if-StartsAllowed i (some e) r v = record { queued = v.queued; dialled = v.dialled }

    look_up-StartsAllowed :
        (family : Family) (found : Lookup E) (r : Race E)
        → StartsAllowed r
        → StartsAllowed (look_up text rules network host port family found r)
    unfolding look_up
    look_up-StartsAllowed v4 found r v =
        unless-keeps StartsAllowed r.found_v4 _ r
          (record {
            queued = resolve-OnlyAllowed text rules network host port v4 found r.feed v.queued;
            dialled = v.dialled;
          })
          v
    look_up-StartsAllowed v6 found r v =
        unless-keeps StartsAllowed r.found_v6 _ r
          (record {
            queued = resolve-OnlyAllowed text rules network host port v6 found r.feed v.queued;
            dialled = v.dialled;
          })
          v

    module _ (unconnected canceled : E) where
      step-StartsAllowed :
          (r : Race E) (a : Action E)
          → StartsAllowed r
          → StartsAllowed (step text rules network host port unconnected canceled r a)
      unfolding step check
      step-StartsAllowed r (passes d) v = record { queued = v.queued; dialled = v.dialled }
      step-StartsAllowed r (cancels e) v = record { queued = v.queued; dialled = v.dialled }
      step-StartsAllowed r (looks_up family found) v = look_up-StartsAllowed family found r v
      step-StartsAllowed r closes_feed v = close_if-StartsAllowed _ r v
      step-StartsAllowed r (ends_dial i conn err attempt_err) v = record {
        queued = v.queued;
        dialled = v.dialled;
      }
      step-StartsAllowed r (drops i) v = drop_if-StartsAllowed i r.context_error r v
      step-StartsAllowed r (checks delay) v =
          at_checking-keeps StartsAllowed r.place _ r
            (λ e. advanced-StartsAllowed canceled delay _ r refl v) v
      step-StartsAllowed r sees_end v =
          at_choosing-keeps StartsAllowed r.place _ r
            (λ e. see_end-StartsAllowed canceled r.context_error r v) v
      step-StartsAllowed r wakes v =
          at_choosing-keeps StartsAllowed r.place _ r (λ e. wake-StartsAllowed r.feed.wake r v) v
      step-StartsAllowed r fires v =
          at_choosing-keeps StartsAllowed r.place _ r (λ e. fire-StartsAllowed r.timer r v) v
      step-StartsAllowed r (receives i) v =
          at_choosing-keeps StartsAllowed r.place _ r
            (λ e. receive-StartsAllowed canceled i (offered i r.pool) r v) v

      -- Whatever the resolvers return, and however the race interleaves: every address that
      -- `dialTCPIncremental` dials is the text of an IP that the whole access list allows for the
      -- host, joined with the port, and of a family that the network admits.
      pub run-new_race-StartsAllowed :
          (context_error : Option E) (actions : List (Action E))
          → StartsAllowed (
              run text rules network host port unconnected canceled
                (new_race context_error)
                actions)
      run-new_race-StartsAllowed c actions =
          run-keeps text rules network host port unconnected canceled StartsAllowed
            step-StartsAllowed actions (new_race c)
            (record { queued = record { in_v4 = tt; in_v6 = tt }; dialled = tt })
