-- ===== src/Tunnel/Dual/Carries.antt =====
-- What a tunnel carries in its two directions.
mod Tests
use forwardproxy.Base.{ℕ, suc, ◌+◌, ◌≡◌, refl, true, [], none, Bytes, arith, length}
use forwardproxy.Tunnel.Copy.Receiver.{receive-Sends}
use forwardproxy.Tunnel.Copy.Sender.{NoEmptyRead, flushing_io_copy-add_padding}
use forwardproxy.Tunnel.Copy.Wire.{Wire}
use forwardproxy.Tunnel.Copy.{Copying, flushing_io_copy, returned, start}
use forwardproxy.Tunnel.Dual.{Way, dual_stream, stream}
use forwardproxy.Tunnel.Reader.{content, eof, final, size}

-- A padded tunnel with a client that speaks the padding protocol. The target gets exactly the bytes
-- that the client's wire carries; the client gets a wire that carries exactly the target's bytes; both
-- copies end with no error. Both destinations accept every write, both sources end well, and the
-- target's gives no empty read.
pub dual_stream-carries :
    (from_client from_target : Way) (bytes : Bytes)
    → from_client.answers ≡ []
    → from_target.answers ≡ []
    → Wire 8 bytes (content from_client.source)
    → final from_client.source ≡ eof
    → NoEmptyRead from_target.source
    → final from_target.source ≡ eof
    → (s s' : Copying) × ((dual_stream true from_client from_target).to_target.copied
        ≡ returned s none)
      × (s.sent ≡ bytes)
      × ((dual_stream true from_client from_target).to_client.copied ≡ returned s' none)
      × Wire 8 (content from_target.source) s'.sent
unfolding dual_stream stream flushing_io_copy
dual_stream-carries c t bytes no_answers no_answers' wire end reads end' =
    let down =
      receive-Sends c.rand (suc (size c.source)) (start c.source c.buffer []) wire refl
        (omega arith) refl end (omega arith) in
    let (s', returns, wire', _) =
      flushing_io_copy-add_padding t.rand t.source t.buffer reads end' in
    (down.state, s', rw no_answers down.returns, down.sent_is, rw no_answers' returns, wire')
