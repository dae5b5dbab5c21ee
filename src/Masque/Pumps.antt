-- ===== src/Masque/Pumps.antt =====
-- native_udp_association.go, the two pumps of an association. A pump is run on the list of what its
-- source gives; at the end of the list it waits for more.
pub mod Relay
use forwardproxy.Base.{
  ℕ, ◌+◌, ◌%◌, ◌^◌, Bool, true, false, not, ◌||◌, List, [], ◌∷◌, ◌++◌, Option, none, some, Bytes,
  ltb, ◌==◌, if◌then◌else◌, length,
}
use forwardproxy.Masque.Datagrams.{Varint, decode_connect_udp_datagram, encode_connect_udp_datagram}

-- `connectUDPAssociationCounters`
pub record Counters : Type 0 where
  pub h3_read_error : ℕ
  pub malformed_context : ℕ
  pub udp_write_error : ℕ
  pub udp_read_error : ℕ
  pub oversize : ℕ
  pub h3_write_error : ℕ

-- What a pump returns with; `E` is the type of the errors of the stream and the socket.
pub data PumpEnd (E : Type 0) : Type 0 where
  waiting : PumpEnd E
  fails : E → PumpEnd E
  short_write : PumpEnd E

pub data Written (E : Type 0) : Type 0 where
  takes : ℕ → Written E
  write_fails : E → Written E

-- A datagram of the stream, with what the socket's write of its payload gives, or a failed receive.
pub data Received (E : Type 0) : Type 0 where
  datagram : Bytes → Written E → Received E
  receive_fails : E → Received E

-- A read of the socket, with what the stream's send of it gives, or a failed read. `cancels` is a
-- context that is done behind a send.
pub data Sending (E : Type 0) : Type 0 where
  sent too_large : Sending E
  send_fails : E → Sending E
  cancels : E → Sending E

pub data Read (E : Type 0) : Type 0 where
  payload : Bytes → Sending E → Read E
  read_fails : E → Read E

-- Where a pump has come to: what it has passed on, how often it has noted activity, the counters.
pub record Pumped (E : Type 0) : Type 0 where
  pub passed : List Bytes
  pub activity : ℕ
  pub counters : Counters
  pub ended : PumpEnd E

abbrev pub max_udp_payload : ℕ
max_udp_payload = 65535

-- A payload that the pump lets through: decoded, and not longer than a UDP payload.
unfoldable pub accepted : Varint → Bytes → Option Bytes
accepted varint d = elim (decode_connect_udp_datagram varint d) [
  | none ↦ none
  | some p ↦ if ltb max_udp_payload (length p) then none else some p
]

-- `Add(1)` on an `atomic.Uint64`.
abbrev bump : ℕ → ℕ
bump n = (n + 1) % 2 ^ 64

module _ {E : Type 0} (varint : Varint) where
  unfoldable pub stopped : Counters → PumpEnd E → Pumped E
  stopped c e = record { passed = []; activity = 0; counters = c; ended = e }

  -- One more payload passed on, before the rest of the run.
  unfoldable pub passing : Bytes → Pumped E → Pumped E
  passing p rest = record rest { passed = p ∷ rest.passed; activity = rest.activity + 1 }

  on_written : Counters → Bytes → Written E → Pumped E → Pumped E
  unfolding stopped passing
  on_written c p (write_fails e) rest =
      stopped (record c { udp_write_error = bump c.udp_write_error }) (fails e)
  on_written c p (takes n) rest =
      if n == length p
      then passing p rest
      else stopped (record c { udp_write_error = bump c.udp_write_error }) short_write

  -- `pumpH3ToUDP`
  unfoldable pub pump_h3_to_udp : Counters → List (Received E) → Pumped E
  unfolding on_written stopped
  pump_h3_to_udp c [] = stopped c waiting
  pump_h3_to_udp c (receive_fails e ∷ events) =
      stopped (record c { h3_read_error = bump c.h3_read_error }) (fails e)
  pump_h3_to_udp c (datagram d w ∷ events) = elim (accepted varint d) [
    | none ↦ pump_h3_to_udp (record c { malformed_context = bump c.malformed_context }) events
    | some p ↦ on_written c p w (pump_h3_to_udp c events)
  ]

  -- `pumpUDPToH3`
  unfoldable pub pump_udp_to_h3 : Counters → List (Read E) → Pumped E
  unfolding stopped passing
  pump_udp_to_h3 c [] = stopped c waiting
  pump_udp_to_h3 c (read_fails e ∷ events) =
      stopped (record c { udp_read_error = bump c.udp_read_error }) (fails e)
  pump_udp_to_h3 c (payload p sent ∷ events) =
      passing (encode_connect_udp_datagram varint p) (pump_udp_to_h3 c events)
  pump_udp_to_h3 c (payload p too_large ∷ events) =
      pump_udp_to_h3 (record c { oversize = bump c.oversize }) events
  pump_udp_to_h3 c (payload p (send_fails e) ∷ events) =
      stopped (record c { h3_write_error = bump c.h3_write_error }) (fails e)
  pump_udp_to_h3 c (payload p (cancels e) ∷ events) =
      passing (encode_connect_udp_datagram varint p) (stopped c (fails e))
