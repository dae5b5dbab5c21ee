-- ===== src/Dial/Incremental.antt =====
-- connect_dial_incremental.go, `dialTCPIncremental`: the lookups, the attempts, the clock and the
-- scheduler's loop as interleaved steps. Times are milliseconds. `E` is the type of the errors, with
-- `errTCPDialFailed` and `context.Canceled` among them.
pub mod Steps
pub mod Owners
pub mod Spacing
pub mod Starts
pub mod Order
mod Tests
use forwardproxy.Acl.{AclRule}
use forwardproxy.Base.{
  ℕ, zero, suc, ◌+◌, ◌-◌, Bool, true, false, ◌&&◌, List, [], ◌∷◌, Option, none, some, Bytes, leb,
  ltb, ◌==◌, if◌then◌else◌,
}
use forwardproxy.Dial.Feed.{
  Advanced, Feed, FinalError, Lookup, advance, candidate, close_feed, final_error, idle, new_feed,
  resolve,
}
use forwardproxy.Dial.Interleave.{Family, Network, v4, v6}
use forwardproxy.Dial.Pool.{
  Pool, Result, close_conn, dial_ends, drop_attempt, empty_pool, failed, launch, made, offered,
  take_result,
}
use forwardproxy.Std.Net.{IpText, bad_address, host_port, split_host_port, to4}
use mathlib.Core.Option.{Option}
use Prim.Native.Nat.{max}

abbrev pub fallback_delay : ℕ
fallback_delay = 250

abbrev pub minimum_delay : ℕ
minimum_delay = 100

-- What the call returns with.
pub data Ended (E : Type 0) : Type 0 where
  won : ℕ → Ended E
  gave_up : FinalError E → Ended E
  context_ended : E → Ended E

-- Where the scheduler is: at the head of its loop, in its select, or gone.
pub data Place (E : Type 0) : Type 0 where
  checking choosing : Place E
  returned : Ended E → Place E

pub record Race (E : Type 0) : Type 0 where
  pub feed : Feed E
  -- Whether each family's lookup has ended.
  pub found_v4 : Bool
  pub found_v6 : Bool
  pub pool : Pool E
  pub place : Place E
  pub clock : ℕ
  pub context_error : Option E
  pub started : ℕ
  pub pending : ℕ
  pub last_start : ℕ
  pub last_family : Option Family
  pub last_err : Option E
  -- `nextReadyAt`, `none` for the zero time, and when the timer fires, `none` where it is stopped.
  pub ready_at : Option ℕ
  pub timer : Option ℕ
  -- The starts with their times, the newest first.
  pub starts : List (Bytes × ℕ)

pub data Action (E : Type 0) : Type 0 where
  passes : ℕ → Action E
  cancels : E → Action E
  -- The lookup of a family returns; after both, the feed is closed.
  looks_up : Family → Lookup E → Action E
  closes_feed : Action E
  -- An attempt's dial returns; an attempt meets the context's end.
  ends_dial : ℕ → Option ℕ → Option E → Option E → Action E
  drops : ℕ → Action E
  -- The head of the loop, with the time from its test to the start; the cases of the select.
  checks : ℕ → Action E
  sees_end wakes fires : Action E
  receives : ℕ → Action E

abbrev pub is_due : Option ℕ → ℕ → Bool
is_due none clock = true
is_due (some t) clock = leb t clock

-- `familyByte`, `none` for 0.
unfoldable pub family_byte : IpText → Bytes → Option Family
family_byte text address = elim (split_host_port address) [
  | bad_address _ ↦ none
  | host_port host _ ↦ elim (text.parse_ip host) [
    | none ↦ some v6
    | some ip ↦ elim (to4 ip) [ none ↦ some v6 | some _ ↦ some v4 ]
  ]
]

module _ {E : Type 0} where
  abbrev pub new_race : Option E → Race E
  new_race context_error = record {
    feed = new_feed;
    found_v4 = false;
    found_v6 = false;
    pool = empty_pool;
    place = checking;
    clock = 0;
    context_error = context_error;
    started = 0;
    pending = 0;
    last_start = 0;
    last_family = none;
    last_err = none;
    ready_at = none;
    timer = none;
    starts = [];
  }

  abbrev pub or_canceled : E → Option E → Option E
  or_canceled canceled none = some canceled
  or_canceled canceled (some e) = some e

  -- The return: the deferred `cancel` ends the context that the attempts share.
  unfoldable pub finish : E → Ended E → Race E → Race E
  finish canceled out r = record r {
    place = returned out;
    context_error = or_canceled canceled r.context_error;
  }

  -- The body of the loop for a candidate, `delay` after the test.
  unfoldable pub start : IpText → ℕ → Bytes → Race E → Race E
  start text delay address r =
      let now = r.clock + delay in
      record r {
        place = checking;
        clock = now;
        pool = launch r.pool;
        started = r.started + 1;
        pending = r.pending + 1;
        last_start = now;
        last_family = family_byte text address;
        ready_at = some (now + fallback_delay);
        timer = some (now + fallback_delay);
        starts = (address, now) ∷ r.starts;
      }

  start_if : E → IpText → ℕ → Bytes → Option E → Race E → Race E
  unfolding start finish
  start_if canceled text delay address none r = start text delay address r
  start_if canceled text delay address (some e) r = finish canceled (context_ended e) r

  advanced : E → IpText → ℕ → Advanced E → Race E → Race E
  unfolding start_if finish
  advanced canceled text delay (candidate address feed) r =
      start_if canceled text delay address r.context_error (record r { feed = feed })
  advanced canceled text delay (idle closed empty) r =
      if closed && empty && r.pending == 0
      then finish canceled (gave_up (final_error r.feed r.started r.last_err)) r
      else record r { place = choosing }

  unfoldable pub check : E → IpText → ℕ → Race E → Race E
  unfolding advanced
  check canceled text delay r =
      advanced canceled text delay (advance (is_due r.ready_at r.clock) r.last_family r.feed) r

  -- A failed result shortens the window to 100 ms from the last start.
  shorten : ℕ → Option ℕ → Race E → Race E
  shorten ready none r = record r { place = checking }
  shorten ready (some t) r =
      if ltb ready t
      then record r { place = checking; ready_at = some ready; timer = some (max r.clock ready) }
      else record r { place = checking }

  receive_made : E → ℕ → Option E → Race E → Race E
  unfolding finish
  receive_made canceled c none r = finish canceled (won c) r
  receive_made canceled c (some e) r =
      finish canceled (context_ended e) (record r { pool = close_conn c r.pool })

  receive : E → ℕ → Option (Result E) → Race E → Race E
  unfolding receive_made shorten
  receive canceled i none r = r
  receive canceled i (some (made c)) r =
      receive_made canceled c r.context_error
        (record r { pool = take_result i r.pool; pending = r.pending - 1 })
  receive canceled i (some (failed e)) r =
      shorten (r.last_start + minimum_delay) r.ready_at
        (record r { pool = take_result i r.pool; pending = r.pending - 1; last_err = some e })

  see_end : E → Option E → Race E → Race E
  unfolding finish
  see_end canceled none r = r
  see_end canceled (some e) r = finish canceled (context_ended e) r

  wake : Bool → Race E → Race E
  wake false r = r
  wake true r = record r { place = checking; feed = record r.feed { wake = false } }

  fire : Option ℕ → Race E → Race E
  fire none r = r
  fire (some t) r = if leb t r.clock then record r { place = checking; timer = none } else r

  -- A step of the scheduler acts where the scheduler stands there.
  unfoldable pub at_checking : Place E → Race E → Race E → Race E
  at_checking checking next r = next
  at_checking choosing next r = r
  at_checking (returned out) next r = r

  unfoldable pub at_choosing : Place E → Race E → Race E → Race E
  at_choosing checking next r = r
  at_choosing choosing next r = next
  at_choosing (returned out) next r = r

  -- A lookup returns once.
  unfoldable pub unless : Bool → Race E → Race E → Race E
  unless true next r = r
  unless false next r = next

  drop_if : ℕ → Option E → Race E → Race E
  drop_if i none r = r
  drop_if i (some e) r = record r { pool = drop_attempt i r.pool }

  close_if : Bool → Race E → Race E
  close_if true r = record r { feed = close_feed r.feed }
  close_if false r = r

  module _ (text : IpText) (rules : List AclRule) (network : Network) (host port : Bytes) where
    look_up : Family → Lookup E → Race E → Race E
    unfolding unless
    look_up v4 found r =
        unless r.found_v4
          (record r {
            found_v4 = true;
            feed = resolve text rules network host port v4 found r.feed;
          })
          r
    look_up v6 found r =
        unless r.found_v6
          (record r {
            found_v6 = true;
            feed = resolve text rules network host port v6 found r.feed;
          })
          r

    module _ (unconnected canceled : E) where
      unfoldable pub step : Race E → Action E → Race E
      unfolding check receive see_end wake fire at_checking at_choosing look_up drop_if close_if
      step r (passes d) = record r { clock = r.clock + d }
      step r (cancels e) = record r { context_error = or_canceled e r.context_error }
      step r (looks_up family found) = look_up family found r
      step r closes_feed = close_if (r.found_v4 && r.found_v6) r
      step r (ends_dial i conn err attempt_err) = record r {
        pool = dial_ends unconnected i conn err attempt_err r.pool;
      }
      step r (drops i) = drop_if i r.context_error r
      step r (checks delay) = at_checking r.place (check canceled text delay r) r
      step r sees_end = at_choosing r.place (see_end canceled r.context_error r) r
      step r wakes = at_choosing r.place (wake r.feed.wake r) r
      step r fires = at_choosing r.place (fire r.timer r) r
      step r (receives i) = at_choosing r.place (receive canceled i (offered i r.pool) r) r

      unfoldable pub run : Race E → List (Action E) → Race E
      run r [] = r
      run r (a ∷ actions) = run (step r a) actions
