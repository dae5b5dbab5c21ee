-- ===== src/Masque/Pumps/Relay.antt =====
-- One pump's output as the other's input.
use forwardproxy.Base.{◌≤◌, List, [], ◌∷◌, some, Bytes, ◌≡◌, refl, ap, arith, length, map, All}
use forwardproxy.Masque.Datagrams.{
  ReadsZero, Varint, decode-encode_connect_udp_datagram, encode_connect_udp_datagram,
}
use forwardproxy.Masque.Pumps.{
  Counters, Read, Received, accepted, datagram, max_udp_payload, on_written, passing, payload,
  pump_h3_to_udp, pump_udp_to_h3, read_fails, sent, too_large, send_fails, cancels, takes,
}

accepted-encoded :
    (varint : Varint) (p : Bytes)
    → ReadsZero varint
    → length p ≤ max_udp_payload
    → accepted varint (encode_connect_udp_datagram varint p) ≡ some p
unfolding accepted
accepted-encoded varint p v short =
    rw (decode-encode_connect_udp_datagram varint p v, accepted) (ground arith)

module _ {E : Type 0} where
  -- The payloads that a run of reads sends, in order, up to its first failure.
  unfoldable pub payloads_sent : List (Read E) → List Bytes
  payloads_sent [] = []
  payloads_sent (read_fails e ∷ reads) = []
  payloads_sent (payload p sent ∷ reads) = p ∷ payloads_sent reads
  payloads_sent (payload p too_large ∷ reads) = payloads_sent reads
  payloads_sent (payload p (send_fails e) ∷ reads) = []
  payloads_sent (payload p (cancels e) ∷ reads) = p ∷ []

  -- The datagrams as they come in at a pump whose socket takes every payload whole.
  unfoldable pub arrive : List Bytes → List Bytes → List (Received E)
  arrive (d ∷ ds) (p ∷ ps) = datagram d (takes (length p)) ∷ arrive ds ps
  arrive _ _ = []

module _ (E : Type 0) (varint : Varint) where
  pump_udp_to_h3-payloads_sent :
      (reads : List (Read E)) (c : Counters)
      → (pump_udp_to_h3 varint c reads).passed
        ≡ map (λ p. encode_connect_udp_datagram varint p) (payloads_sent reads)
  unfolding pump_udp_to_h3 payloads_sent passing
  pump_udp_to_h3-payloads_sent [] c = refl
  pump_udp_to_h3-payloads_sent (read_fails e ∷ reads) c = refl
  pump_udp_to_h3-payloads_sent (payload p sent ∷ reads) c =
      ap (λ ds. encode_connect_udp_datagram varint p ∷ ds) (pump_udp_to_h3-payloads_sent reads c)
  pump_udp_to_h3-payloads_sent (payload p too_large ∷ reads) c =
      pump_udp_to_h3-payloads_sent reads _
  pump_udp_to_h3-payloads_sent (payload p (send_fails e) ∷ reads) c = refl
  pump_udp_to_h3-payloads_sent (payload p (cancels e) ∷ reads) c = refl

  pump_h3_to_udp-arrive :
      (c : Counters) (ps : List Bytes)
      → ReadsZero varint
      → All (λ p. length p ≤ max_udp_payload) ps
      → (pump_h3_to_udp varint c
          (arrive {E = E} (map (λ p. encode_connect_udp_datagram varint p) ps) ps)).passed
        ≡ ps
  unfolding pump_h3_to_udp arrive on_written passing
  pump_h3_to_udp-arrive c [] v h = refl
  pump_h3_to_udp-arrive c (p ∷ ps) v h =
      rw (accepted-encoded varint p v h.0, pump_h3_to_udp)
        (ground (arith, pump_h3_to_udp-arrive c ps v h.1))

  -- Every payload that one end reads from its socket and sends, the other end writes to its own, in
  -- the same order and unchanged. The datagrams arrive in order and none is lost, no payload is longer
  -- than UDP allows, and the other end's socket takes each payload whole.
  pub pump_h3_to_udp-pump_udp_to_h3 :
      (c c' : Counters) (reads : List (Read E))
      → ReadsZero varint
      → All (λ p. length p ≤ max_udp_payload) (payloads_sent reads)
      → (pump_h3_to_udp varint c'
          (arrive {E = E} (pump_udp_to_h3 varint c reads).passed (payloads_sent reads))).passed
        ≡ payloads_sent reads
  pump_h3_to_udp-pump_udp_to_h3 c c' reads v h =
      rw (pump_udp_to_h3-payloads_sent reads c) (pump_h3_to_udp-arrive c' (payloads_sent reads) v h)
