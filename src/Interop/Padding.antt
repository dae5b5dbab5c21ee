-- ===== src/Interop/Padding.antt =====
-- cmd/m4-rfc9298-client/main.go, `runTCPPadding`.
pub mod Passing
use forwardproxy.Base.{
  ℕ, ◌+◌, ◌*◌, Bool, true, false, not, ◌&&◌, ◌||◌, [], ◌∷◌, Option, none, some, Bytes, codes, equal,
  is_nil, leb, ◌==◌, if◌then◌else◌, length, take, drop,
}
use forwardproxy.Serve.Headers.{Header, get, set_value}

-- What the client reads of the response's body.
pub data PaddedReply : Type 0 where
  short_reply mismatched matched : PaddedReply

begins_with_y : Bytes → Bool
begins_with_y [] = false
begins_with_y (c ∷ s) = c == b'y'

sized : ℕ → ℕ → Bytes → PaddedReply
unfolding begins_with_y
sized payload_size padding_size s =
    if not (leb (payload_size + padding_size) (length s))
    then short_reply
    else if payload_size == 1 && begins_with_y s
    then matched
    else mismatched

-- The two reads of `io.ReadFull` and the check of the frame.
unfoldable pub padded_reply : Bytes → PaddedReply
unfolding sized
padded_reply (a ∷ b ∷ p ∷ s) = sized (a * 256 + b) p s
padded_reply s = short_reply

-- The request's header.
unfoldable pub tcp_request_header : Bytes → Header
tcp_request_header auth =
    let h = if is_nil auth then [] else set_value (codes "Proxy-Authorization") auth [] in
    set_value (codes "Padding-Type-Request") (codes "1, 0")
      (set_value (codes "Padding") (codes "cover") h)

-- The frame that is sent before the response comes.
abbrev pub first_frame : Bytes
first_frame = 0 ∷ 1 ∷ 0 ∷ b'x' ∷ []

-- What the server and the target do in one run.
pub record TcpRun : Type 0 where
  pub listens : Bool
  pub opens : Bool
  pub accepts_header : Bool
  pub accepts_frame : Bool
  -- The response's status and header.
  pub response : Option (ℕ × Header)
  -- The bytes of the response's body up to its end.
  pub body : Bytes
  -- Whether the target got its byte and answered.
  pub target_answers : Bool

pub data TcpResult : Type 0 where
  interoperates : TcpResult
  tcp_error : TcpResult
  tcp_status : ℕ → TcpResult
  no_padding_headers response_mismatch target_error : TcpResult

on_body : Bool → PaddedReply → TcpResult
on_body target_answers short_reply = tcp_error
on_body target_answers mismatched = response_mismatch
on_body true matched = interoperates
on_body false matched = target_error

on_response : TcpRun → Option (ℕ × Header) → TcpResult
unfolding on_body
on_response x none = tcp_error
on_response x (some (status, h)) =
    if not (status == 200)
    then tcp_status status
    else if not (equal (get (codes "Padding-Type-Reply") h) (codes "1"))
        || is_nil (get (codes "Padding") h)
    then no_padding_headers
    else on_body x.target_answers (padded_reply x.body)

-- `runTCPPadding`
unfoldable pub run_tcp_padding : TcpRun → TcpResult
unfolding on_response
run_tcp_padding x =
    if x.listens && x.opens && x.accepts_header && x.accepts_frame
    then on_response x x.response
    else tcp_error
