-- ===== src/Interop/Session.antt =====
-- cmd/m4-rfc9298-client/main.go: what its runs do with the server, as commands over a state `W` that
-- the connection, the server and the fixtures share, and `(*client).echo`.
pub mod Laws
use forwardproxy.Base.{
  ℕ, Bool, true, false, not, ◌||◌, List, [], ◌∷◌, Option, none, some, Bytes, equal, ◌==◌,
  if◌then◌else◌,
}

-- What `SendDatagram` gives.
pub data Sent : Type 0 where
  sent too_large send_failed : Sent

-- The operations of a connection's streams, which are numbered.
pub record Service (W : Type 0) : Type 0 where
  -- `open`: the stream and the response's status, `none` for an error.
  pub open_stream : Bytes → ℕ → W → Option (ℕ × ℕ) × W
  pub send_datagram : ℕ → Bytes → W → Sent × W
  -- `ReceiveDatagram` under the run's context, and under one with a timeout in milliseconds.
  pub receive_datagram : ℕ → W → Option Bytes × W
  pub receive_for : ℕ → ℕ → W → Option Bytes × W
  pub close_stream : ℕ → W → W
  -- Whether the stream's context ends before the run's.
  pub stream_ends : ℕ → W → Bool × W
  pub pause : ℕ → W → W
  pub now : W → ℕ

-- The errors that the runs return.
pub data Failure : Type 0 where
  fixture_failed open_failed send_error receive_error bad_context : Failure
  bad_status : ℕ → Failure
  echo_mismatch : Bytes → Failure
  invalid_dns not_rejected unhealthy not_reusable : Failure
  not_admitted : ℕ → Failure
  not_refused : ℕ → Failure
  produced_datagram closed_early still_echoes no_shutdown unknown_mode : Failure

pub data Outcome (A : Type 0) : Type 0 where
  ok : A → Outcome A
  err : Failure → Outcome A

abbrev pub Cmd : Type 0 → Type 0 → Type 0
Cmd W A = W → Outcome A × W

module _ {W : Type 0} where
  abbrev pub pure : {A : Type 0} → A → Cmd W A
  pure a w = (ok a, w)

  abbrev pub fail : {A : Type 0} → Failure → Cmd W A
  fail e w = (err e, w)

  module _ {A B : Type 0} where
    abbrev pub and_then : Outcome A × W → (A → Cmd W B) → Outcome B × W
    and_then (ok a, w) k = k a w
    and_then (err e, w) k = (err e, w)

    infixl 5 ◌>>=◌ ◌>>◌
    abbrev pub ◌>>=◌ : Cmd W A → (A → Cmd W B) → Cmd W B
    m >>= k = λ w. and_then (m w) k

    abbrev pub ◌>>◌ : Cmd W A → Cmd W B → Cmd W B
    m >> n = m >>= λ _. n

  abbrev pub require : Bool → Failure → Cmd W (Unit {0})
  require true e = pure tt
  require false e = fail e

  abbrev pub or_fail : {A : Type 0} → Failure → Option A × W → Outcome A × W
  or_fail e (none, w) = (err e, w)
  or_fail e (some a, w) = (ok a, w)

  abbrev pub sent_or_fail : Sent × W → Outcome (Unit {0}) × W
  sent_or_fail (sent, w) = (ok tt, w)
  sent_or_fail (too_large, w) = (err send_error, w)
  sent_or_fail (send_failed, w) = (err send_error, w)

  -- An error in the place of the command's own.
  abbrev pub relabel : {A : Type 0} → Failure → Outcome A × W → Outcome A × W
  relabel e (ok a, w) = (ok a, w)
  relabel e (err e', w) = (err e, w)

-- `encode`
unfoldable pub encode : Bytes → Bytes
encode payload = 0 ∷ payload

-- `decode`, `none` for its error.
unfoldable pub decode : Bytes → Option Bytes
decode [] = none
decode (c ∷ s) = if c == 0 then some s else none

module _ {W : Type 0} (service : Service W) where
  abbrev pub opened : Bytes → ℕ → Cmd W (ℕ × ℕ)
  opened host port w = or_fail open_failed (service.open_stream host port w)

  abbrev pub sends : ℕ → Bytes → Cmd W (Unit {0})
  sends s datagram w = sent_or_fail (service.send_datagram s datagram w)

  abbrev pub receives : ℕ → Cmd W Bytes
  receives s w = or_fail receive_error (service.receive_datagram s w)

  -- `closeStream`
  abbrev pub closes : ℕ → Cmd W (Unit {0})
  closes s w = (ok tt, service.close_stream s w)

  -- `defer closeStream(stream)`
  abbrev pub closing : {A : Type 0} → ℕ → Cmd W A → Cmd W A
  closing s m w = let (out, w') = m w in (out, service.close_stream s w')

  abbrev pub decoded : Bytes → Cmd W Bytes
  decoded datagram w = or_fail bad_context (decode datagram, w)

  -- A datagram to the target and one back.
  unfoldable pub exchange : ℕ → Bytes → Cmd W Bytes
  unfolding encode decode
  exchange s payload = do sends s (encode payload); datagram ← receives s; decoded datagram

  -- `echo`
  unfoldable pub echo : Bytes → ℕ → Bytes → Cmd W (Unit {0})
  unfolding exchange
  echo host port payload = do
    (s, status) ← opened host port
    closing s (do
      require (status == 200) (bad_status status)
      got ← exchange s payload
      require (equal got payload) (echo_mismatch got))
