-- ===== src/Interop/Padding/Passing.antt =====
-- The run against the proxy's own negotiation and padding.
mod Tests
use forwardproxy.Base.{
  ℕ, suc, ◌+◌, ◌<◌, ◌≡◌, refl, is_nil, false, true, [], ◌∷◌, ◌++◌, none, some, Bytes, codes, equal,
  arith, length, replicate, length-append, length-replicate,
}
use forwardproxy.Interop.Padding.{
  TcpRun, first_frame, interoperates, matched, on_body, on_response, padded_reply, run_tcp_padding,
  sized, begins_with_y, tcp_request_header,
}
use forwardproxy.Serve.Headers.{
  Header, candidate, candidates_of, canonical_key, padding_value, random_codes, capitalise,
  all_token_bytes, get, negotiate_naive_padding, set_naive_padding_response_headers, set_value,
  values, variant1, without,
}
use forwardproxy.Std.Strconv.{itoa}
use forwardproxy.Std.Strings.{has_byte, split, trim_left, trim_space}
use forwardproxy.Tunnel.Copy.Sender.{NoEmptyRead, flushing_io_copy-add_padding}
use forwardproxy.Tunnel.Copy.Wire.{Wire, ended, framed}
use forwardproxy.Tunnel.Copy.{Copying, add_padding, flushing_io_copy, frame, returned}
use forwardproxy.Tunnel.Reader.{Reader, content, eof, final}

framed_y :
    (c padding : ℕ) (rest wire : Bytes)
    → padding < 256
    → c ∷ rest ≡ codes "y"
    → padded_reply (frame (c ∷ []) padding ++ wire) ≡ matched
unfolding padded_reply sized begins_with_y
framed_y c padding rest wire small e =
    ground (
      arith,
      e,
      small,
      length-append (replicate padding 0) wire,
      length-replicate {A = ℕ} padding 0,
    )

padded_reply-Wire :
    {k : ℕ} {bytes wire : Bytes}
    → Wire (suc k) bytes wire
    → bytes ≡ codes "y"
    → padded_reply wire ≡ matched
padded_reply-Wire ended e = absurd (cc)
padded_reply-Wire (framed [] padding some_bytes fits small w) e = absurd (omega arith)
padded_reply-Wire (framed {rest = rest} {wire = wire} (c ∷ []) padding some_bytes fits small w) e =
    framed_y c padding rest wire small e
padded_reply-Wire (framed (c ∷ d ∷ payload) padding some_bytes fits small w) e = absurd (cc)

negotiates : (auth : Bytes) → negotiate_naive_padding (tcp_request_header auth) ≡ variant1
unfolding negotiate_naive_padding tcp_request_header set_value without values canonical_key
    capitalise all_token_bytes has_byte equal candidates_of candidate split trim_space trim_left get
negotiates [] = refl
negotiates (c ∷ auth) = refl

replies_in_kind :
    (extra bits : ℕ) (w : Header) (auth : Bytes)
    → let h = set_naive_padding_response_headers extra bits w (tcp_request_header auth) 1 in
      (get (codes "Padding-Type-Reply") h ≡ codes "1") × (is_nil (get (codes "Padding") h) ≡ false)
unfolding set_naive_padding_response_headers tcp_request_header set_value without values
    canonical_key capitalise all_token_bytes has_byte equal itoa get padding_value random_codes
replies_in_kind extra bits w [] = (refl, refl)
replies_in_kind extra bits w (c ∷ auth) = (refl, refl)

-- Client and proxy fit together: the request's header makes the proxy negotiate Variant1 padding. With
-- the header that the proxy then puts on its 200 and the bytes that its padding copy sends for the
-- target's answer "y", however the target's bytes are cut and whatever the padding, `runTCPPadding`
-- finds what it wants. The destination of the copy accepts every write, and the target's stream ends
-- well and gives no empty read.
pub run_tcp_padding-interoperates :
    (extra bits : ℕ) (w : Header) (auth : Bytes) (rand : ℕ → ℕ) (r : Reader) (buffer : Bytes)
    → NoEmptyRead r
    → final r ≡ eof
    → content r ≡ codes "y"
    → (negotiate_naive_padding (tcp_request_header auth) ≡ variant1)
      × (s : Copying) × (flushing_io_copy add_padding rand r buffer [] ≡ returned s none)
      × (run_tcp_padding (record {
        listens = true;
        opens = true;
        accepts_header = true;
        accepts_frame = true;
        response =
            some (200, set_naive_padding_response_headers extra bits w (tcp_request_header auth) 1);
        body = s.sent;
        target_answers = true;
      })
          ≡ interoperates)
unfolding run_tcp_padding on_response on_body equal
run_tcp_padding-interoperates extra bits w auth rand r buffer reads end answer =
    let (s, returns, wire, _) = flushing_io_copy-add_padding rand r buffer reads end in
    let (type_is, some_padding) = replies_in_kind extra bits w auth in
    (
      negotiates auth,
      s,
      returns,
      rw type_is (rw some_padding (rw (padded_reply-Wire wire answer) refl)),
    )
