-- ===== src/Interop/Served.antt =====
-- The client of cmd/m4-rfc9298-client/main.go connected to the server of native_udp_association.go and
-- native_udp_protocol.go: each stream is one association, with the library between them.
mod Tests
use forwardproxy.Base.{
  ℕ, ◌+◌, ◌≤◌, ◌<◌, ◌≡◌, refl, sym, ap, ◌∙◌, Bool, true, false, [], ◌∷◌, Option, none, some, Bytes,
  leb, ltb, ◌==◌, if◌then◌else◌, length, arith, is_nil,
}
use forwardproxy.Interop.Opening.Parsing.{parse_connect_udp_target-open_request}
use forwardproxy.Interop.Opening.{Client, open_request, open_url}
use forwardproxy.Interop.Session.Laws.{Relays, echo_lem}
use forwardproxy.Interop.Session.{Sent, Service, echo, encode, ok, sent, too_large}
use forwardproxy.Masque.Datagrams.{
  ReadsZero, Varint, decode-encode_connect_udp_datagram, decode_connect_udp_datagram,
  encode_connect_udp_datagram,
}
use forwardproxy.Masque.Pumps.{accepted, max_udp_payload}
use forwardproxy.Masque.Serving.Replies.{serve_connect_udp-granted}
use forwardproxy.Masque.Serving.{
  Ending, Outside, Reply, admitted_udp, context_error, error_status, no_stream, ran,
  serve_connect_udp,
}
use forwardproxy.Masque.Target.Escaped.{IsHost}
use forwardproxy.Masque.Target.{Target, canonical_host, client_address_key}
use forwardproxy.Policy.{Rules}
use forwardproxy.Std.Net.{join_host_port}
use forwardproxy.Std.Strconv.{itoa}
use forwardproxy.Udp.Admission.{Limiter, acquire, granted}

-- The next stream, the address that each stream's association has dialled, and the datagram on its way
-- back to the client.
pub record Net : Type 0 where
  pub next : ℕ
  pub address : ℕ → Bytes
  pub inbox : ℕ → Option Bytes

abbrev at : {A : Type 0} → ℕ → A → (ℕ → A) → ℕ → A
at s a f i = if i == s then a else f i

-- What the client hears of the reply.
abbrev pub status_of : Reply → Option (ℕ × Bytes)
status_of (error_status status) = some (status, [])
status_of context_error = none
status_of no_stream = some (200, [])
status_of (ran address ending) = some (200, address)

module _ (out : Outside) (rules : Rules) (limiter : Limiter) (varint : Varint)
    (targets : Bytes → Bytes → Option Bytes) (limit : ℕ) (client : Client) (addr : Bytes) where
  open_with : Net → Option (ℕ × Bytes) → Option (ℕ × ℕ) × Net
  open_with w none = (none, w)
  open_with w (some (status, address)) =
      (some (w.next, status), record w { next = w.next + 1; address = at w.next address w.address })

  -- The server's two pumps, with the target between them.
  answer_to : Bytes → Option Bytes → Option Bytes
  answer_to address none = none
  answer_to address (some payload) = elim (targets address payload) [
    | none ↦ none
    | some reply ↦ some (encode_connect_udp_datagram varint reply)
  ]

  send_over : ℕ → Bytes → Net → Sent × Net
  unfolding answer_to
  send_over s datagram w =
      if leb (length datagram) (limit + 1)
      then (
        sent,
        record w { inbox = at s (answer_to (w.address s) (accepted varint datagram)) w.inbox },
      )
      else (too_large, w)

  take_from : ℕ → Net → Option Bytes × Net
  take_from s w = (w.inbox s, record w { inbox = at s none w.inbox })

  unfoldable pub served : Service Net
  unfolding open_with send_over take_from
  served = record {
    open_stream = λ host port w. open_with w (
        status_of
          (serve_connect_udp out rules false (open_request client addr host port)
            (some (open_url host port)) limiter).0);
    send_datagram = send_over;
    receive_datagram = take_from;
    receive_for = λ ms s w. take_from s w;
    close_stream = λ s w. w;
    stream_ends = λ s w. (false, w);
    pause = λ ms w. w;
    now = λ w. 0;
  }

  -- A target that the server's policy admits, whose lookup and dial succeed, and which answers so.
  pub record Serves (host : Bytes) (port : ℕ) (answer : Bytes → Option Bytes) : Type 0 where
    pub is_host : IsHost host
    pub positive : 0 < port
    pub in_range : port ≤ 65535
    pub name : Bytes
    pub canonical : canonical_host out.text out.to_ascii host ≡ some name
    pub address : Bytes
    pub ending : Ending
    pub runs :
        (admitted_udp out rules
          (record { host = name; port = itoa port; host_port = join_host_port name (itoa port) })).0
        ≡ ran address ending
    pub answers : (payload : Bytes) → targets address payload ≡ answer payload

  -- The server has a place for the client, the integers are QUIC's, with 0 in one byte, and QUIC's
  -- limit on datagrams is not above that of UDP.
  pub record IsOpen : Type 0 where
    pub proxy : is_nil client.proxy ≡ false
    pub bounded : limit ≤ max_udp_payload
    pub id : ℕ
    pub active : ℕ
    pub taken : Limiter
    pub place : acquire limiter (client_address_key out.text addr) ≡ granted id active taken
    pub reads : ReadsZero varint
    pub zero_byte : varint.append [] 0 ≡ 0 ∷ []

  abbrev IsReady : ℕ → (Bytes → Option Bytes) → Net → Type 0
  IsReady s answer w = (payload : Bytes) → targets (w.address s) payload ≡ answer payload

  abbrev IsWaiting : ℕ → (Bytes → Option Bytes) → Bytes → Net → Type 0
  IsWaiting s answer datagram w = IsReady s answer w × (w.inbox s ≡ some datagram)

  at_self : {A : Type 0} (s : ℕ) (a : A) (f : ℕ → A) → at s a f s ≡ a
  at_self s a f = ground arith

  opened_status :
      (host : Bytes) (port : ℕ) (answer : Bytes → Option Bytes)
      → IsOpen
      → (v : Serves host port answer)
      → (serve_connect_udp out rules false
          (open_request client addr host port)
          (some (open_url host port))
          limiter).0
        ≡ ran v.address v.ending
  unfolding open_request
  opened_status host port answer o v =
      serve_connect_udp-granted out rules (open_request client addr host port)
        (some (open_url host port)) limiter o.taken _ o.id o.active
        (parse_connect_udp_target-open_request out.text out.to_ascii client addr host v.name port
          o.proxy v.is_host v.canonical v.positive v.in_range)
        o.place
      ∙ v.runs

  encode_same :
      (payload : Bytes) → IsOpen → encode_connect_udp_datagram varint payload ≡ encode payload
  unfolding encode_connect_udp_datagram encode
  encode_same payload o = rw o.zero_byte refl

  decode_same :
      (payload : Bytes)
      → IsOpen
      → length payload ≤ limit
      → accepted varint (encode payload) ≡ some payload
  unfolding accepted
  decode_same payload o fits =
      let decoded : decode_connect_udp_datagram varint (encode payload) ≡ some payload =
        rw (encode_same payload o) at (decode-encode_connect_udp_datagram varint payload o.reads) in
      let short : ltb max_udp_payload (length payload) ≡ false = ground (arith, fits, o.bounded) in
      rw (decoded, accepted) (rw short refl)

  answered :
      (address payload reply : Bytes)
      → IsOpen
      → length payload ≤ limit
      → targets address payload ≡ some reply
      → answer_to address (accepted varint (encode payload)) ≡ some (encode reply)
  unfolding answer_to
  answered address payload reply o fits e =
      rw (decode_same payload o fits) (rw (e, answer_to) (ap some (encode_same reply o)))

  send_over-fits :
      (s : ℕ) (answer : Bytes → Option Bytes) (payload reply : Bytes) (w : Net)
      → IsOpen
      → IsReady s answer w
      → length payload ≤ limit
      → answer payload ≡ some reply
      → send_over s (encode payload) w
        ≡ (sent, record w { inbox = at s (some (encode reply)) w.inbox })
  unfolding send_over encode
  send_over-fits s answer payload reply w o ready fits e =
      let short : leb (length (0 ∷ payload)) (limit + 1) ≡ true = ground (arith, fits) in
      rw (short) (rw (answered (w.address s) payload reply o fits (ready payload ∙ e)) refl)

  send_over-long :
      (s : ℕ) (payload : Bytes) (w : Net)
      → limit < length payload
      → send_over s (encode payload) w ≡ (too_large, w)
  unfolding send_over encode
  send_over-long s payload w long =
      let over : leb (length (0 ∷ payload)) (limit + 1) ≡ false = ground (arith, long) in
      rw over refl

  pub served-Relays : IsOpen → Relays served Serves limit
  unfolding served open_with send_over take_from encode
  served-Relays o = record {
    IsReady = IsReady;
    IsWaiting = IsWaiting;
    opens = λ host port answer w v. (
      w.next,
      record w { next = w.next + 1; address = at w.next v.address w.address },
      rw (opened_status host port answer o v) refl,
      λ payload. rw (at_self w.next v.address w.address) (v.answers payload),
    );
    sends = λ s answer payload reply w ready fits e. (
      record w { inbox = at s (some (encode reply)) w.inbox },
      send_over-fits s answer payload reply w o ready fits e,
      (ready, at_self s (some (encode reply)) w.inbox),
    );
    rejects = λ s answer payload w ready long. (w, send_over-long s payload w long, ready);
    receives = λ s answer datagram w waiting.
        (record w { inbox = at s none w.inbox }, rw waiting.1 refl, waiting.0);
  }

  -- Client and server fit together: for every target that the server's policy admits, whose name
  -- resolves, that can be dialled and that echoes, the client's `echo` succeeds, whatever the payload up
  -- to the limit on datagrams, which is not above that of UDP. The server has a place for the client,
  -- and QUIC's integer for 0 is one zero byte that is read back.
  pub echo-served :
      (host : Bytes) (port : ℕ) (payload : Bytes) (w : Net)
      → IsOpen
      → Serves host port some
      → length payload ≤ limit
      → (w' : Net) × (echo served host port payload w ≡ (ok tt, w'))
  echo-served host port payload w o good fits =
      echo_lem served Serves limit (served-Relays o) host port payload w good fits
