-- ===== src/Interop/Session/Laws.antt =====
-- What a run needs of a server that relays datagrams to a target and its answers back, and the runs'
-- parts against such a server.
use forwardproxy.Base.{ℕ, ◌≤◌, ◌<◌, ◌≡◌, refl, equal_refl, Bytes, Option, some, length}
use forwardproxy.Interop.Session.{Service, echo, encode, decode, exchange, ok, sent, too_large}

-- `Serves host port answer`: the target at that address answers a payload with `answer payload`.
pub record Relays {W : Type 0} (service : Service W)
    (Serves : Bytes → ℕ → (Bytes → Option Bytes) → Type 0) (limit : ℕ) : Type 1 where
  -- A stream that is open to a target and has nothing on its way, and one that has this datagram.
  pub IsReady : ℕ → (Bytes → Option Bytes) → W → Type 0
  pub IsWaiting : ℕ → (Bytes → Option Bytes) → Bytes → W → Type 0
  pub opens :
      (host : Bytes) (port : ℕ) (answer : Bytes → Option Bytes) (w : W)
      → Serves host port answer
      → (s : ℕ) × (w' : W) × (service.open_stream host port w ≡ (some (s, 200), w'))
        × IsReady s answer w'
  pub sends :
      (s : ℕ) (answer : Bytes → Option Bytes) (payload reply : Bytes) (w : W)
      → IsReady s answer w
      → length payload ≤ limit
      → answer payload ≡ some reply
      → (w' : W) × (service.send_datagram s (encode payload) w ≡ (sent, w'))
        × IsWaiting s answer (encode reply) w'
  pub rejects :
      (s : ℕ) (answer : Bytes → Option Bytes) (payload : Bytes) (w : W)
      → IsReady s answer w
      → limit < length payload
      → (w' : W) × (service.send_datagram s (encode payload) w ≡ (too_large, w'))
        × IsReady s answer w'
  pub receives :
      (s : ℕ) (answer : Bytes → Option Bytes) (datagram : Bytes) (w : W)
      → IsWaiting s answer datagram w
      → (w' : W) × (service.receive_datagram s w ≡ (some datagram, w')) × IsReady s answer w'

module _ {W : Type 0} (service : Service W) (Serves : Bytes → ℕ → (Bytes → Option Bytes) → Type 0)
    (limit : ℕ) (relays : Relays service Serves limit) where
  pub exchange_lem :
      (s : ℕ) (answer : Bytes → Option Bytes) (payload reply : Bytes) (w : W)
      → relays.IsReady s answer w
      → length payload ≤ limit
      → answer payload ≡ some reply
      → (w' : W) × (exchange service s payload w ≡ (ok reply, w')) × relays.IsReady s answer w'
  unfolding exchange encode decode
  exchange_lem s answer payload reply w v fits e =
      let (w₁, sending, waiting) = relays.sends s answer payload reply w v fits e in
      let (w₂, receiving, ready) = relays.receives s answer (encode reply) w₁ waiting in
      (w₂, rw (sending) (rw receiving refl), ready)

  -- An echo through a relay to a target that echoes.
  pub echo_lem :
      (host : Bytes) (port : ℕ) (payload : Bytes) (w : W)
      → Serves host port some
      → length payload ≤ limit
      → (w' : W) × (echo service host port payload w ≡ (ok tt, w'))
  unfolding echo
  echo_lem host port payload w good fits =
      let (s, w₁, opening, ready) = relays.opens host port some w good in
      let (w₂, exchanged, _) = exchange_lem s some payload payload w₁ ready fits refl in
      (service.close_stream s w₂, rw opening (rw exchanged (rw (equal_refl payload) refl)))
