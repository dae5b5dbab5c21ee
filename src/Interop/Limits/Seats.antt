-- ===== src/Interop/Limits/Seats.antt =====
-- The run against the server's admission: one client's streams, each of which takes a place when it is
-- opened and gives it back when it is closed.
pub mod Taking
pub mod Passing
mod Tests
use forwardproxy.Base.Dict.{count_at, insert}
use forwardproxy.Base.{
  ℕ, zero, suc, ◌+◌, ◌-◌, ◌%◌, ◌^◌, ◌≤◌, ◌<◌, ◌≡◌, ◌∙◌, refl, ap, Bool, true, false, List, [], ◌∷◌,
  ◌++◌, Option, none, some, Bytes, codes, leb, ltb, ◌==◌, if◌then◌else◌, arith, Bool-cases, inl,
  inr,
}
use forwardproxy.Interop.Limits.{
  Kept, drop_first, fill_places, full_run, limits_body, reuse, run_limits, close_all, owner,
}
use forwardproxy.Interop.Matrix.{loopback}
use forwardproxy.Interop.Session.{Service, Sent, and_then, ok, send_failed}
use forwardproxy.Udp.Admission.Counting.{count_at-insert}
use forwardproxy.Udp.Admission.{
  Acquired, Limiter, acquire, client_limit, drop_client, global_limit, granted, refused,
  release_locked,
}

pub record Seats : Type 0 where
  pub limiter : Limiter
  pub next : ℕ
  -- Whether a stream has a place.
  pub holds : ℕ → Bool

abbrev at : ℕ → Bool → (ℕ → Bool) → ℕ → Bool
at s b f i = if i == s then b else f i

module _ (client : Bytes) where
  seat : Seats → Acquired → Option (ℕ × ℕ) × Seats
  seat w (refused limit) = (some (w.next, 503), record w { next = w.next + 1 })
  seat w (granted id active l) = (
    some (w.next, 200),
    record w { limiter = l; next = w.next + 1; holds = at w.next true w.holds },
  )

  leave : ℕ → Seats → Bool → Seats
  leave s w false = w
  leave s w true = record w {
    limiter = release_locked w.limiter client;
    holds = at s false w.holds;
  }

  -- The server's CONNECT-UDP, as far as admission goes.
  unfoldable pub seats : Service Seats
  unfolding seat leave
  seats = record {
    open_stream = λ host port w. seat w (acquire w.limiter client);
    send_datagram = λ s datagram w. (send_failed, w);
    receive_datagram = λ s w. (none, w);
    receive_for = λ ms s w. (none, w);
    close_stream = λ s w. leave s w (w.holds s);
    stream_ends = λ s w. (false, w);
    pause = λ ms w. w;
    now = λ w. 0;
  }
