-- ===== src/Dial/Addresses.antt =====
-- connect_dial.go, `dialTCPAddresses`: the race over a fixed list of addresses, as interleaved steps.
-- Times are milliseconds. `E` is the type of the errors, with `errTCPDialFailed` and
-- `context.Canceled` among them.
pub mod Soundness
pub mod Outcomes
mod Tests
use forwardproxy.Base.{
  ℕ, ◌+◌, ◌-◌, Bool, true, false, ◌&&◌, List, [], ◌∷◌, ◌++◌, Option, none, some, Bytes, leb, ◌==◌,
  if◌then◌else◌,
}
use forwardproxy.Dial.Incremental.{fallback_delay, minimum_delay, or_canceled}
use forwardproxy.Dial.Interleave.{Network, interleave_tcp_addresses}
use forwardproxy.Dial.Pool.{
  Pool, Result, close_conn, dial_ends, drop_attempt, empty_pool, failed, launch, made, offered,
  take_result,
}
use forwardproxy.Std.Net.{IpText}
use Prim.Native.Nat.{max}

pub data Ended (E : Type 0) : Type 0 where
  won : ℕ → Ended E
  -- The last dial error; `errTCPDialFailed` where there is no address at all.
  gave_up : E → Ended E
  nothing_to_dial : E → Ended E
  context_ended : E → Ended E

pub data Place (E : Type 0) : Type 0 where
  choosing : Place E
  returned : Ended E → Place E

pub record Call (E : Type 0) : Type 0 where
  -- `addresses[next:]`, and those that have been started, in order.
  pub waiting : List Bytes
  pub started : List Bytes
  pub pool : Pool E
  pub place : Place E
  pub clock : ℕ
  pub context_error : Option E
  pub pending : ℕ
  pub last_start : ℕ
  -- When the timer fires, `none` where it has.
  pub timer : Option ℕ

pub data Action (E : Type 0) : Type 0 where
  passes : ℕ → Action E
  cancels : E → Action E
  -- An attempt's dial returns; an attempt meets the context's end.
  ends_dial : ℕ → Option ℕ → Option E → Option E → Action E
  drops : ℕ → Action E
  -- The cases of the select; the timer's with the time up to the start.
  sees_end : Action E
  receives : ℕ → Action E
  fires : ℕ → Action E

module _ {E : Type 0} where
  -- The return: the deferred `cancel` ends the context that the attempts share.
  pub finish : E → Ended E → Call E → Call E
  finish canceled out r = record r {
    place = returned out;
    context_error = or_canceled canceled r.context_error;
  }

  launch_first : Bytes → List Bytes → ℕ → Call E → Call E
  launch_first address rest now r = record r {
    waiting = rest;
    started = r.started ++ address ∷ [];
    pool = launch r.pool;
    clock = now;
    pending = r.pending + 1;
    last_start = now;
    timer = some (now + fallback_delay);
  }

  -- A start, which the end of the context prevents.
  pub start_if : E → Option E → Bytes → List Bytes → ℕ → Call E → Call E
  unfolding launch_first finish
  start_if canceled none address rest now r = launch_first address rest now r
  start_if canceled (some e) address rest now r = finish canceled (context_ended e) r

  fresh : Option E → List Bytes → Call E
  fresh context_error addresses = record {
    waiting = addresses;
    started = [];
    pool = empty_pool;
    place = choosing;
    clock = 0;
    context_error = context_error;
    pending = 0;
    last_start = 0;
    timer = none;
  }

  -- Up to the loop.
  opened_with : E → E → Option E → List Bytes → Call E
  unfolding start_if fresh
  opened_with unconnected canceled context_error [] = record (fresh context_error []) {
    place = returned (nothing_to_dial unconnected);
  }
  opened_with unconnected canceled context_error (a ∷ addresses) =
      start_if canceled context_error a addresses 0 (fresh context_error (a ∷ addresses))

  receive_made : E → ℕ → Option E → Call E → Call E
  unfolding finish
  receive_made canceled c none r = finish canceled (won c) r
  receive_made canceled c (some e) r =
      finish canceled (context_ended e) (record r { pool = close_conn c r.pool })

  -- A failed result: the end with the last one, or a shorter wait for the next start.
  receive_failed : E → E → List Bytes → Call E → Call E
  unfolding finish
  receive_failed canceled e [] r = if r.pending == 0 then finish canceled (gave_up e) r else r
  receive_failed canceled e (a ∷ rest) r = record r {
    timer = some (max r.clock (r.last_start + minimum_delay));
  }

  receive : E → ℕ → Option (Result E) → Call E → Call E
  unfolding receive_made receive_failed
  receive canceled i none r = r
  receive canceled i (some (made c)) r =
      receive_made canceled c r.context_error
        (record r { pool = take_result i r.pool; pending = r.pending - 1 })
  receive canceled i (some (failed e)) r =
      receive_failed canceled e r.waiting
        (record r { pool = take_result i r.pool; pending = r.pending - 1 })

  see_end : E → Option E → Call E → Call E
  unfolding finish
  see_end canceled none r = r
  see_end canceled (some e) r = finish canceled (context_ended e) r

  start_next : E → ℕ → List Bytes → Call E → Call E
  unfolding start_if
  start_next canceled delay [] r = record r { timer = none }
  start_next canceled delay (a ∷ rest) r =
      start_if canceled r.context_error a rest (r.clock + delay) r

  fire : E → ℕ → Option ℕ → Call E → Call E
  unfolding start_next
  fire canceled delay none r = r
  fire canceled delay (some t) r =
      if leb t r.clock then start_next canceled delay r.waiting r else r

  drop_if : ℕ → Option E → Call E → Call E
  drop_if i none r = r
  drop_if i (some e) r = record r { pool = drop_attempt i r.pool }

  pub at_choosing : Place E → Call E → Call E → Call E
  at_choosing choosing next r = next
  at_choosing (returned out) next r = r

  module _ (unconnected canceled : E) where
    unfoldable pub step : Call E → Action E → Call E
    unfolding receive see_end fire drop_if at_choosing
    step r (passes d) = record r { clock = r.clock + d }
    step r (cancels e) = record r { context_error = or_canceled e r.context_error }
    step r (ends_dial i conn err attempt_err) = record r {
      pool = dial_ends unconnected i conn err attempt_err r.pool;
    }
    step r (drops i) = drop_if i r.context_error r
    step r sees_end = at_choosing r.place (see_end canceled r.context_error r) r
    step r (receives i) = at_choosing r.place (receive canceled i (offered i r.pool) r) r
    step r (fires delay) = at_choosing r.place (fire canceled delay r.timer r) r

    unfoldable pub run : Call E → List (Action E) → Call E
    unfolding step
    run r [] = r
    run r (a ∷ actions) = run (step r a) actions

    -- A call of `dialTCPAddresses`, with the steps that follow it.
    unfoldable pub dial_tcp_addresses :
        IpText → Network → Option E → List Bytes → List (Action E) → Call E
    unfolding run opened_with
    dial_tcp_addresses text network context_error addresses actions =
        run
          (opened_with unconnected canceled context_error
            (interleave_tcp_addresses text network addresses))
          actions
