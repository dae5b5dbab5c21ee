-- ===== src/Masque/Datagrams.antt =====
-- native_udp_protocol.go, the encoding of a datagram. The variable-length integer is QUIC's.
use forwardproxy.Base.{
  ℕ, not, ◌||◌, [], ◌∷◌, ◌++◌, Option, none, some, Bytes, ◌==◌, if◌then◌else◌, length, drop, ◌≡◌,
  refl, arith,
}

-- `quicvarint`: `parse` gives the value and the number of bytes it took, `none` for an error.
pub record Varint : Type 0 where
  pub parse : Bytes → Option (ℕ × ℕ)
  pub size : ℕ → ℕ
  pub append : Bytes → ℕ → Bytes

module _ (varint : Varint) where
  context_payload : Bytes → Option (ℕ × ℕ) → Option Bytes
  context_payload datagram none = none
  context_payload datagram (some (context, consumed)) =
      if not (consumed == varint.size context) || not (context == 0)
      then none
      else some (drop consumed datagram)

  -- `decodeConnectUDPDatagram`, `none` for its error.
  unfoldable pub decode_connect_udp_datagram : Bytes → Option Bytes
  unfolding context_payload
  decode_connect_udp_datagram datagram = context_payload datagram (varint.parse datagram)

  -- `encodeConnectUDPDatagram`
  unfoldable pub encode_connect_udp_datagram : Bytes → Bytes
  encode_connect_udp_datagram payload = varint.append [] 0 ++ payload

-- What QUIC's integers promise for the value 0: what was appended is read back, with its length,
-- whatever follows.
pub record ReadsZero (varint : Varint) : Type 0 where
  pub length_is : length (varint.append [] 0) ≡ varint.size 0
  pub reads : (rest : Bytes) → varint.parse (varint.append [] 0 ++ rest) ≡ some (0, varint.size 0)

drop-append_self : (a b : Bytes) → drop (length a) (a ++ b) ≡ b
drop-append_self [] b = refl
drop-append_self (x ∷ a) b = drop-append_self a b

-- What one side encodes, the other side decodes to the same payload.
pub decode-encode_connect_udp_datagram :
    (varint : Varint) (payload : Bytes)
    → ReadsZero varint
    → decode_connect_udp_datagram varint (encode_connect_udp_datagram varint payload) ≡ some payload
unfolding decode_connect_udp_datagram encode_connect_udp_datagram context_payload
decode-encode_connect_udp_datagram varint payload v =
    ground (arith, v.reads payload, v.length_is, drop-append_self (varint.append [] 0) payload)
