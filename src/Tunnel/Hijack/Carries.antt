-- ===== src/Tunnel/Hijack/Carries.antt =====
-- What the tunnel of an HTTP/1 client carries.
use forwardproxy.Base.{
  ℕ, zero, suc, if◌then◌else◌, ◌≤◌, ◌≡◌, refl, ap, arith, false, [], ◌∷◌, ◌++◌, none, Bytes, is_nil,
  length, take,
}
use forwardproxy.Tunnel.Copy.Wire.{flushing_io_copy-no_padding}
use forwardproxy.Tunnel.Copy.{Copying, returned}
use forwardproxy.Tunnel.Dual.{Dual, Way, dual_stream, stream}
use forwardproxy.Tunnel.Hijack.{Hijack, serve_hijack, tunnelled}
use forwardproxy.Tunnel.Reader.{content, eof, final}

take_all : (n : ℕ) (xs : Bytes) → length xs ≤ n → take n xs ≡ xs
take_all zero [] h = refl
take_all (suc n) [] h = refl
take_all zero (x ∷ xs) h = absurd (omega arith)
take_all (suc n) (x ∷ xs) h = ap (λ (ys : Bytes). x ∷ ys) (take_all n xs (omega (arith, h)))

early_all : (n : ℕ) (xs : Bytes) → length xs ≤ n → (if is_nil xs then [] else take n xs) ≡ xs
early_all n [] h = refl
early_all n (x ∷ xs) h = take_all n (x ∷ xs) h

-- Where the hijack and the flush go well and the target takes the whole of what the server had read
-- beyond the request: the target gets these bytes first and then everything that the client sends, and
-- the client gets exactly the target's bytes. Both sources end well, and both destinations accept every
-- write.
pub serve_hijack-carries :
    (x : Hijack) (from_client from_target : Way)
    → x.hijack_fails ≡ false
    → x.flush_fails ≡ false
    → length x.buffered ≤ x.taken
    → from_client.answers ≡ []
    → from_target.answers ≡ []
    → final from_client.source ≡ eof
    → final from_target.source ≡ eof
    → (early : Bytes) × (d : Dual) × (s s' : Copying) × (serve_hijack x from_client from_target
        ≡ tunnelled early d)
      × (d.to_target.copied ≡ returned s none)
      × (d.to_client.copied ≡ returned s' none)
      × (early ++ s.sent ≡ x.buffered ++ content from_client.source)
      × (s'.sent ≡ content from_target.source)
unfolding serve_hijack dual_stream stream
serve_hijack-carries x c t hijacks flushes whole no_answers no_answers' end end' =
    let (s, returns, sent_is, _) = flushing_io_copy-no_padding c.rand c.source c.buffer end in
    let (s', returns', sent_is', _) = flushing_io_copy-no_padding t.rand t.source t.buffer end' in
    (
      x.buffered,
      dual_stream false c t,
      s,
      s',
      rw hijacks (
          rw flushes
            (ap (λ b. tunnelled b (dual_stream false c t)) (early_all x.taken x.buffered whole))),
      rw no_answers returns,
      rw no_answers' returns',
      ap (λ b. x.buffered ++ b) sent_is,
      sent_is',
    )
