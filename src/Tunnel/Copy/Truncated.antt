-- ===== src/Tunnel/Copy/Truncated.antt =====
-- What the receiving side makes of a stream that is cut off inside a frame.
use mathlib.Core.List.{append-nil}
use forwardproxy.Base.{
  ℕ, suc, ◌+◌, ◌-◌, ◌*◌, ◌/◌, ◌%◌, ◌<◌, ◌≡◌, refl, sym, ap, ◌∙◌, [], ◌∷◌, ◌++◌, none, Bytes, length,
  arith, drop,
}
use forwardproxy.Tunnel.Copy.Receiver.{
  Removes, remove_junk-Removes, remove_round-ended, early_round,
}
use forwardproxy.Tunnel.Copy.Rounds.{sent_on}
use forwardproxy.Tunnel.Copy.Termination.{remove_payload-le}
use forwardproxy.Tunnel.Copy.Wire.{Sends-next, Sends-end}
use forwardproxy.Tunnel.Copy.{
  remove_padding, Copying, returned, Round, remove_round, remove_payload, overwrite, start,
  flushing_io_copy,
}
use forwardproxy.Tunnel.Reader.Laws.{read_full-ReadsFull, read_full-prefix, append_cancel}
use forwardproxy.Tunnel.Reader.{Reader, eof, read_full, content, final, size}

remove_payload-cut :
    (a b : ℕ) (payload buffer : Bytes) (r : Reader)
    → 0 < length payload
    → length payload < a * 256 + b
    → content r ≡ payload
    → Removes payload [] r (remove_payload (a ∷ b ∷ 0 ∷ buffer) r)
unfolding remove_payload
remove_payload-cut a b payload buffer r some_bytes cut e =
    let out = read_full (a * 256 + b) r in
    let f = read_full-ReadsFull (a * 256 + b) r in
    let (got, _) = f.short (ground (arith, e)) in
    let (_, left) =
      append_cancel (content r) out.got [] (content out.rest)
        (append-nil (content r) ∙ f.content_is) (ap (λ (x : Bytes). length x) (sym got)) in
    let v =
      remove_junk-Removes 0 payload [] (overwrite out.got (a ∷ b ∷ 0 ∷ buffer)) out some_bytes
        (got ∙ e) (sym left) in
    record {
      filled_is = v.filled_is;
      clean = v.clean;
      left = v.left;
      final_is = v.final_is ∙ f.final_is;
    }

remove_round-cut :
    (n : ℕ) (payload : Bytes) (s : Copying)
    → 0 < length payload
    → length payload < n
    → n < 65536
    → content s.reader ≡ n / 256 ∷ n % 256 ∷ 0 ∷ payload
    → Removes payload [] s.reader (remove_round s) × (size (remove_round s).rest < size s.reader)
unfolding remove_round
remove_round-cut n payload s some_bytes cut fits e =
    let a = n / 256 in
    let b = n % 256 in
    let (got, _, left) = read_full-prefix (a ∷ b ∷ 0 ∷ []) payload s.reader e in
    let header = read_full 3 s.reader in
    let f = read_full-ReadsFull 3 s.reader in
    let v =
      remove_payload-cut a b payload (drop 3 s.buffer) header.rest some_bytes (omega arith) left in
    rw (got, remove_round)
      (
        record {
          filled_is = v.filled_is;
          clean = v.clean;
          left = v.left;
          final_is = v.final_is ∙ f.final_is;
        },
        omega (
          arith,
          remove_payload-le (a ∷ b ∷ 0 ∷ drop 3 s.buffer) header.rest,
          f.takes (ground (arith, got)),
        ),
      )

-- A stream cut off inside the payload of a first frame that has no padding: the receiving side sends
-- on what it got and returns no error, as after a clean end. The reading of the (empty) padding has
-- overwritten the error of the payload's reading.
pub flushing_io_copy-cut :
    (rand : ℕ → ℕ) (r : Reader) (buffer : Bytes) (n : ℕ) (payload : Bytes)
    → 0 < length payload
    → length payload < n
    → n < 65536
    → content r ≡ n / 256 ∷ n % 256 ∷ 0 ∷ payload
    → final r ≡ eof
    → (s : Copying) × (flushing_io_copy remove_padding rand r buffer [] ≡ returned s none)
      × (s.sent ≡ payload)
unfolding flushing_io_copy
flushing_io_copy-cut rand r buffer n payload some_bytes cut fits e end =
    let s = start r buffer [] in
    let out : Round × ℕ = (remove_round s, 0 + 1) in
    let (v, shorter) = remove_round-cut n payload s some_bytes cut fits e in
    let (nothing, failed) = remove_round-ended (sent_on s out) v.left (v.final_is ∙ end) in
    let last =
      Sends-end remove_padding rand (size r - 1) (sent_on s out) _
        (early_round rand (sent_on s out) 6 refl) refl failed in
    let all =
      Sends-next remove_padding rand (suc (size r - 1)) s out _ (early_round rand s 7 refl) refl
        v.clean last in
    let enough : suc (size r - 1) ≡ size r = omega arith in
    (
      all.state,
      rw enough at all.returns,
      all.sent_is ∙ ap (λ x. out.0.filled ++ x) nothing ∙ append-nil _ ∙ v.filled_is,
    )
