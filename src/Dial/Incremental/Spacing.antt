-- ===== src/Dial/Incremental/Spacing.antt =====
-- The time between two starts.
use forwardproxy.Acl.{AclRule}
use forwardproxy.Base.{
  ℕ, ◌+◌, ◌-◌, ◌≤◌, Bool, true, false, ◌&&◌, List, [], ◌∷◌, Option, none, some, Bytes, ◌≡◌, inl,
  inr, refl, arith, leb, ltb, ◌==◌, Bool-cases, leb→le,
}
use forwardproxy.Dial.Feed.Pops.{advance-Popped}
use forwardproxy.Dial.Feed.{Advanced, Lookup, advance, candidate, idle}
use forwardproxy.Dial.Incremental.Steps.{
  at_checking-keeps, at_choosing-keeps, run-keeps, unless-keeps,
}
use forwardproxy.Dial.Incremental.{
  Action, Race, advanced, cancels, check, checks, close_if, closes_feed, drop_if, drops, ends_dial,
  fallback_delay, finish, fire, fires, is_due, look_up, looks_up, minimum_delay, new_race, passes,
  receive, receive_made, receives, run, see_end, sees_end, shorten, start, start_if, step, wake,
  wakes,
}
use forwardproxy.Dial.Interleave.{Family, Network, v4, v6}
use forwardproxy.Dial.Pool.{Result, failed, made, offered, take_result}
use forwardproxy.Std.Net.{IpText}

-- Each of these starts, the newest first, is at least `gap` before the one behind it.
abbrev pub StartedBy : ℕ → ℕ → List (Bytes × ℕ) → Type 0
StartedBy gap time [] = Unit
StartedBy gap time ((a, t) ∷ starts) = (t + gap ≤ time) × StartedBy gap t starts

abbrev pub IsSpaced : ℕ → List (Bytes × ℕ) → Type 0
IsSpaced gap [] = Unit
IsSpaced gap ((a, t) ∷ starts) = StartedBy gap t starts

-- The next start's earliest moment against the last start: none before the first one, and then 100
-- to 250 ms behind it, all of the 250 while no dial has failed.
abbrev pub Window : Option ℕ → Bool → ℕ → List (Bytes × ℕ) → Type 0
Window none failed_once last [] = Unit
Window none failed_once last (s ∷ starts) = ⊥
Window (some t) failed_once last [] = ⊥
Window (some t) failed_once last ((a, u) ∷ starts) =
    (u ≡ last)
    × (last + minimum_delay ≤ t)
    × (t ≤ last + fallback_delay)
    × (failed_once ≡ false → t ≡ last + fallback_delay)

abbrev pub has_failed : {E : Type 0} → Option E → Bool
has_failed none = false
has_failed (some e) = true

-- A start that is due keeps the minimum, and all of the delay while no dial has failed.
due-StartedBy :
    (ready : Option ℕ) (failed_once : Bool) (last clock delay : ℕ) (starts : List (Bytes × ℕ))
    → Window ready failed_once last starts
    → is_due ready clock ≡ true
    → IsSpaced minimum_delay starts
    → StartedBy minimum_delay (clock + delay) starts
due-StartedBy none failed_once last clock delay [] w d s = tt
due-StartedBy none failed_once last clock delay (x ∷ starts) w d s = absurd w
due-StartedBy (some t) failed_once last clock delay [] w d s = tt
due-StartedBy (some t) failed_once last clock delay ((a, u) ∷ starts) w d s =
    (omega (arith, w.0, w.1, leb→le t clock d), s)

due_unfailed-StartedBy :
    (ready : Option ℕ) (last clock delay : ℕ) (starts : List (Bytes × ℕ))
    → Window ready false last starts
    → is_due ready clock ≡ true
    → IsSpaced fallback_delay starts
    → StartedBy fallback_delay (clock + delay) starts
due_unfailed-StartedBy none last clock delay [] w d s = tt
due_unfailed-StartedBy none last clock delay (x ∷ starts) w d s = absurd w
due_unfailed-StartedBy (some t) last clock delay [] w d s = tt
due_unfailed-StartedBy (some t) last clock delay ((a, u) ∷ starts) w d s =
    (omega (arith, w.0, w.3 refl, leb→le t clock d), s)

-- A failed result: the window ends no earlier than the minimum.
shortened-Window :
    (t last : ℕ) (failed_once : Bool) (starts : List (Bytes × ℕ))
    → Window (some t) failed_once last starts
    → Window (some (last + minimum_delay)) true last starts × Window (some t) true last starts
shortened-Window t last failed_once [] w = absurd w
shortened-Window t last failed_once ((a, u) ∷ starts) w =
    ((w.0, omega arith, omega arith, λ h. absurd (cc)), (w.0, w.1, w.2, λ h. absurd (cc)))

any-Window :
    (last : ℕ) (failed_once : Bool) (starts : List (Bytes × ℕ))
    → Window none failed_once last starts
    → Window none true last starts
any-Window last failed_once [] w = tt
any-Window last failed_once (x ∷ starts) w = absurd w

module _ {E : Type 0} where
  pub record Spaced (r : Race E) : Type 0 where
    pub spaced : IsSpaced minimum_delay r.starts
    pub unfailed : r.last_err ≡ none → IsSpaced fallback_delay r.starts
    pub window : Window r.ready_at (has_failed r.last_err) r.last_start r.starts

  start_if-Spaced :
      (canceled : E) (text : IpText) (delay : ℕ) (a : Bytes) (c : Option E) (r : Race E)
      → is_due r.ready_at r.clock ≡ true
      → Spaced r
      → Spaced (start_if canceled text delay a c r)
  unfolding start_if start finish
  start_if-Spaced canceled text delay a none r d v = record {
    spaced =
        due-StartedBy r.ready_at (has_failed r.last_err) r.last_start r.clock delay r.starts
          v.window d v.spaced;
    unfailed = λ e.
        due_unfailed-StartedBy r.ready_at r.last_start r.clock delay r.starts (rw e at v.window) d
          (v.unfailed e);
    window = (refl, omega arith, omega arith, λ h. refl);
  }
  start_if-Spaced canceled text delay a (some e) r d v = record {
    spaced = v.spaced;
    unfailed = v.unfailed;
    window = v.window;
  }

  advanced-Spaced :
      (canceled : E) (text : IpText) (delay : ℕ) (a : Advanced E) (r : Race E)
      → advance (is_due r.ready_at r.clock) r.last_family r.feed ≡ a
      → Spaced r
      → Spaced (advanced canceled text delay a r)
  unfolding advanced finish
  advanced-Spaced canceled text delay (candidate a feed) r e v =
      let (d, _) = advance-Popped (is_due r.ready_at r.clock) r.last_family r.feed feed a e in
      start_if-Spaced canceled text delay a r.context_error (record r { feed = feed }) d
        (record { spaced = v.spaced; unfailed = v.unfailed; window = v.window })
  advanced-Spaced canceled text delay (idle closed empty) r e v =
      elim (Bool-cases (closed && empty && r.pending == 0)) [
        | inl h ↦ rw h (record { spaced = v.spaced; unfailed = v.unfailed; window = v.window })
        | inr h ↦ rw h (record { spaced = v.spaced; unfailed = v.unfailed; window = v.window })
      ]

  -- The failed result has been noted: the window is that of a race with a failure.
  shorten-Spaced :
      (t : Option ℕ) (failed_once : Bool) (e : E) (r : Race E)
      → r.ready_at ≡ t
      → r.last_err ≡ some e
      → IsSpaced minimum_delay r.starts
      → Window t failed_once r.last_start r.starts
      → Spaced (shorten (r.last_start + minimum_delay) t r)
  unfolding shorten
  shorten-Spaced none failed_once e r q f s w = record {
    spaced = s;
    unfailed = λ h. absurd (cc);
    window = rw (q, f) (any-Window r.last_start failed_once r.starts w);
  }
  shorten-Spaced (some t) failed_once e r q f s w =
      let (short, same) = shortened-Window t r.last_start failed_once r.starts w in
      elim (Bool-cases (ltb (r.last_start + minimum_delay) t)) [
        | inl h ↦ rw h (record { spaced = s; unfailed = λ h. absurd (cc); window = rw f short })
        | inr h ↦ rw h (record { spaced = s; unfailed = λ h. absurd (cc); window = rw (q, f) same })
      ]

  receive_made-Spaced :
      (canceled : E) (c : ℕ) (err : Option E) (r : Race E)
      → Spaced r
      → Spaced (receive_made canceled c err r)
  unfolding receive_made finish
  receive_made-Spaced canceled c none r v = record {
    spaced = v.spaced;
    unfailed = v.unfailed;
    window = v.window;
  }
  receive_made-Spaced canceled c (some e) r v = record {
    spaced = v.spaced;
    unfailed = v.unfailed;
    window = v.window;
  }

  receive-Spaced :
      (canceled : E) (i : ℕ) (out : Option (Result E)) (r : Race E)
      → Spaced r
      → Spaced (receive canceled i out r)
  unfolding receive
  receive-Spaced canceled i none r v = v
  receive-Spaced canceled i (some (failed e)) r v =
      shorten-Spaced r.ready_at (has_failed r.last_err) e
        (record r { pool = take_result i r.pool; pending = r.pending - 1; last_err = some e }) refl
        refl v.spaced v.window
  receive-Spaced canceled i (some (made c)) r v =
      receive_made-Spaced canceled c r.context_error _
        (record { spaced = v.spaced; unfailed = v.unfailed; window = v.window })

  see_end-Spaced :
      (canceled : E) (c : Option E) (r : Race E) → Spaced r → Spaced (see_end canceled c r)
  unfolding see_end finish
  see_end-Spaced canceled none r v = v
  see_end-Spaced canceled (some e) r v = record {
    spaced = v.spaced;
    unfailed = v.unfailed;
    window = v.window;
  }

  wake-Spaced : (b : Bool) (r : Race E) → Spaced r → Spaced (wake b r)
  unfolding wake
  wake-Spaced false r v = v
  wake-Spaced true r v = record { spaced = v.spaced; unfailed = v.unfailed; window = v.window }

  close_if-Spaced : (b : Bool) (r : Race E) → Spaced r → Spaced (close_if b r)
  unfolding close_if
  close_if-Spaced true r v = record { spaced = v.spaced; unfailed = v.unfailed; window = v.window }
  close_if-Spaced false r v = v

  fire-Spaced : (t : Option ℕ) (r : Race E) → Spaced r → Spaced (fire t r)
  unfolding fire
  fire-Spaced none r v = v
  fire-Spaced (some t) r v = elim (Bool-cases (leb t r.clock)) [
    | inl h ↦ rw h (record { spaced = v.spaced; unfailed = v.unfailed; window = v.window })
    | inr h ↦ rw h v
  ]

  drop_if-Spaced : (i : ℕ) (c : Option E) (r : Race E) → Spaced r → Spaced (drop_if i c r)
  unfolding drop_if
  drop_if-Spaced i none r v = v
  drop_if-Spaced i (some e) r v = record {
    spaced = v.spaced;
    unfailed = v.unfailed;
    window = v.window;
  }

  module _ (text : IpText) (rules : List AclRule) (network : Network) (host port : Bytes) where
    look_up-Spaced :
        (family : Family) (found : Lookup E) (r : Race E)
        → Spaced r
        → Spaced (look_up text rules network host port family found r)
    unfolding look_up
    look_up-Spaced v4 found r v =
        unless-keeps Spaced r.found_v4 _ r
          (record { spaced = v.spaced; unfailed = v.unfailed; window = v.window }) v
    look_up-Spaced v6 found r v =
        unless-keeps Spaced r.found_v6 _ r
          (record { spaced = v.spaced; unfailed = v.unfailed; window = v.window }) v

    module _ (unconnected canceled : E) where
      step-Spaced :
          (r : Race E) (a : Action E)
          → Spaced r
          → Spaced (step text rules network host port unconnected canceled r a)
      unfolding step check
      step-Spaced r (passes d) v = record {
        spaced = v.spaced;
        unfailed = v.unfailed;
        window = v.window;
      }
      step-Spaced r (cancels e) v = record {
        spaced = v.spaced;
        unfailed = v.unfailed;
        window = v.window;
      }
      step-Spaced r (looks_up family found) v = look_up-Spaced family found r v
      step-Spaced r closes_feed v = close_if-Spaced _ r v
      step-Spaced r (ends_dial i conn err attempt_err) v = record {
        spaced = v.spaced;
        unfailed = v.unfailed;
        window = v.window;
      }
      step-Spaced r (drops i) v = drop_if-Spaced i r.context_error r v
      step-Spaced r (checks delay) v =
          at_checking-keeps Spaced r.place _ r (λ e. advanced-Spaced canceled text delay _ r refl v)
            v
      step-Spaced r sees_end v =
          at_choosing-keeps Spaced r.place _ r (λ e. see_end-Spaced canceled r.context_error r v) v
      step-Spaced r wakes v =
          at_choosing-keeps Spaced r.place _ r (λ e. wake-Spaced r.feed.wake r v) v
      step-Spaced r fires v = at_choosing-keeps Spaced r.place _ r (λ e. fire-Spaced r.timer r v) v
      step-Spaced r (receives i) v =
          at_choosing-keeps Spaced r.place _ r
            (λ e. receive-Spaced canceled i (offered i r.pool) r v) v

      -- However the race interleaves: a start is at least 100 ms behind the one before it, and at
      -- least 250 ms as long as the race has received no failed dial; the window for the next start
      -- ends 100 to 250 ms behind the last one. Lookups that return never shorten it.
      pub run-new_race-Spaced :
          (context_error : Option E) (actions : List (Action E))
          → Spaced (
              run text rules network host port unconnected canceled
                (new_race context_error)
                actions)
      run-new_race-Spaced c actions =
          run-keeps text rules network host port unconnected canceled Spaced step-Spaced actions
            (new_race c) (record { spaced = tt; unfailed = λ e. tt; window = tt })
