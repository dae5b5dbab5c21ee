-- ===== src/Tunnel/Copy/Sender.antt =====
-- The `AddPadding` side writes the wire format, whatever the random numbers; with the receiving side
-- behind it the tunnel carries every byte.
use mathlib.Core.List.{append-nil}
use mathlib.Core.Path.{subst}
use forwardproxy.Base.{
  ℕ, zero, suc, ◌+◌, ◌-◌, ◌%◌, ◌<◌, ◌≡◌, refl, sym, ap, ◌∙◌, [], ◌++◌, none, some, Bytes, length,
  length-take, length-drop, arith, Option-cases, inl, inr, Bool-cases, lt→ltb, ◌==◌,
}
use forwardproxy.Tunnel.Copy.Receiver.{receive-Sends}
use forwardproxy.Tunnel.Copy.Rounds.{sent_on}
use forwardproxy.Tunnel.Copy.Wire.{
  Wire, raw, ended, framed, Sends, Sends-next, Sends-end, plain-Sends,
}
use forwardproxy.Tunnel.Copy.{
  add_padding, remove_padding, Copying, Copied, returned, frame, Round, round, add_round,
  plain_round, start, flushing_io_copy, buffer_size,
}
use forwardproxy.Tunnel.Reader.Laws.{read-Reads}
use forwardproxy.Tunnel.Reader.{Reader, done, chunk, last, eof, read, content, final, size}

-- No read returns 0 bytes and no error, which io.Reader discourages.
abbrev pub NoEmptyRead : Reader → Type 0
NoEmptyRead (done e) = Unit
NoEmptyRead (chunk b r) = (0 < length b) × NoEmptyRead r
NoEmptyRead (last b e) = Unit

read-NoEmptyRead :
    (n : ℕ) (r : Reader)
    → 0 < n
    → NoEmptyRead r
    → NoEmptyRead (read n r).rest × ((read n r).failure ≡ none → 0 < length (read n r).got)
unfolding read
read-NoEmptyRead n (done e) p h = (tt, λ x. absurd (cc))
read-NoEmptyRead n (chunk b r) p h = ground (arith, length-take n b, length-drop n b)
read-NoEmptyRead n (last b e) p h = ground (arith, length-take n b)

-- What a padded round of the sender makes of the next read.
record Adds (padding : ℕ) (r : Reader) (out : Round) : Type 0 where
  payload : Bytes
  content_is : content r ≡ payload ++ content out.rest
  final_is : final out.rest ≡ final r
  goes_on : out.failure ≡ none → (size out.rest < size r) × (0 < length payload)
  filled_is : 0 < length payload → (out.filled ≡ frame payload padding)
  nothing : length payload ≡ 0 → out.filled ≡ []
  fits : length payload < 65536
  keeps : NoEmptyRead out.rest
  over : (e : _) → out.failure ≡ some e → (e ≡ final r) × (content out.rest ≡ [])

add_round-Adds :
    (padding : ℕ) (s : Copying)
    → padding < 256
    → NoEmptyRead s.reader
    → Adds padding s.reader (add_round padding s)
unfolding add_round
add_round-Adds padding s small h =
    let n = buffer_size - 3 - padding - 3 in
    let f = read-Reads n s.reader in
    let (keeps, some_bytes) = read-NoEmptyRead n s.reader (omega arith) h in
    record {
      payload = (read n s.reader).got;
      content_is = ground (arith, f.content_is);
      final_is = ground (arith, f.final_is);
      goes_on = λ e. ground (arith, f.shrinks, some_bytes);
      filled_is = λ p. ground arith;
      nothing = λ p. ground arith;
      fits = omega (arith, f.fits);
      keeps = ground (arith, keeps);
      over = λ e p. ground (arith, f.fails e);
    }

Wire-nil : (k : ℕ) → Wire k [] []
Wire-nil zero = raw
Wire-nil (suc k) = ended

early_round :
    (rand : ℕ → ℕ) (s : Copying) (k : ℕ)
    → s.num_padding + suc k ≡ 8
    → round add_padding rand s ≡ (add_round (rand s.num_padding % 256) s, s.num_padding + 1)
unfolding round
early_round rand s k h = rw (lt→ltb s.num_padding 8 (omega arith), round)

late_round :
    (rand : ℕ → ℕ) (s : Copying)
    → s.num_padding ≡ 8
    → round add_padding rand s ≡ (plain_round s, s.num_padding)
unfolding round
late_round rand s h = rw (h, round)

-- The loop sends some wire that carries the rest of the source.
abbrev pub Carries : ℕ → ℕ → (ℕ → ℕ) → Copying → Type 0
Carries k fuel rand s =
    (wire : Bytes) × Wire k (content s.reader) wire × Sends add_padding rand fuel s wire

-- A round that meets the end of the source, with or without a last payload.
last_round :
    (k fuel : ℕ) (rand : ℕ → ℕ) (s : Copying)
    → s.num_padding + suc k ≡ 8
    → s.answers ≡ []
    → (v : Adds (rand s.num_padding % 256) s.reader (add_round (rand s.num_padding % 256) s))
    → (add_round (rand s.num_padding % 256) s).failure ≡ some eof
    → content (add_round (rand s.num_padding % 256) s).rest ≡ []
    → Carries (suc k) (suc fuel) rand s
last_round k fuel rand s n h v failed empty =
    let p = rand s.num_padding % 256 in
    let r : Round × ℕ = (add_round p s, s.num_padding + 1) in
    let ends = Sends-end add_padding rand fuel s r (early_round rand s k n) h failed in
    let all : content s.reader ≡ v.payload ++ [] = v.content_is ∙ ap (λ x. v.payload ++ x) empty in
    elim (Bool-cases (length v.payload == 0)) [
      | inl nothing ↦
          let none_left : v.payload ≡ [] = ground arith in
          ([], rw (all, none_left) ended, rw (v.nothing (ground arith)) at ends)
      | inr some_bytes ↦ (
        frame v.payload p ++ [],
        rw all (framed v.payload p (ground arith) v.fits (omega arith) (Wire-nil k)),
        rw (append-nil (frame v.payload p)) (rw (v.filled_is (ground arith)) at ends),
      )
    ]

send_cases :
    (k fuel : ℕ) (rand : ℕ → ℕ) (s : Copying)
    → ((s' : Copying)
        → NoEmptyRead s'.reader
        → s'.num_padding + k ≡ 8
        → s'.answers ≡ []
        → final s'.reader ≡ eof
        → size s'.reader < fuel
        → Carries k fuel rand s')
    → NoEmptyRead s.reader
    → s.num_padding + suc k ≡ 8
    → s.answers ≡ []
    → final s.reader ≡ eof
    → size s.reader < suc fuel
    → Carries (suc k) (suc fuel) rand s
send_cases k fuel rand s ih q n h end lt =
    let p = rand s.num_padding % 256 in
    let r : Round × ℕ = (add_round p s, s.num_padding + 1) in
    let v = add_round-Adds p s (omega arith) q in
    elim (Option-cases (add_round p s).failure) [
      | inl more ↦
          let (shorter, some_bytes) = v.goes_on more in
          let (wire, w, sends) =
            ih (sent_on s r) v.keeps (omega arith) refl (v.final_is ∙ end) (omega arith) in
          (
            frame v.payload p ++ wire,
            rw v.content_is (framed v.payload p some_bytes v.fits (omega arith) w),
            subst (λ b. Sends add_padding rand (suc fuel) s (b ++ wire)) (v.filled_is some_bytes)
                (Sends-next add_padding rand fuel s r wire (early_round rand s k n) h more sends),
          )
      | inr (e, failed) ↦
          let (is_final, empty) = v.over e failed in
          last_round k fuel rand s n h v (failed ∙ ap (λ x. some x) (is_final ∙ end)) empty
    ]

pub send-Carries :
    (k fuel : ℕ) (rand : ℕ → ℕ) (s : Copying)
    → NoEmptyRead s.reader
    → s.num_padding + k ≡ 8
    → s.answers ≡ []
    → final s.reader ≡ eof
    → size s.reader < fuel
    → Carries k fuel rand s
send-Carries zero fuel rand s q n h end lt = (
  content s.reader,
  raw,
  plain-Sends add_padding rand fuel s 8 (late_round rand) (omega arith) h end lt,
)
send-Carries (suc k) zero rand s q n h end lt = absurd (omega arith)
send-Carries (suc k) (suc fuel) rand s q n h end lt =
    send_cases k fuel rand s (send-Carries k fuel rand) q n h end lt

-- What the sender returns on a source that ends well: no error, the number of bytes written, and a
-- wire that carries the source's bytes in at most eight frames and a raw rest. The destination
-- accepts every write; the random numbers and the pooled buffer's old bytes are arbitrary.
pub flushing_io_copy-add_padding :
    (rand : ℕ → ℕ) (r : Reader) (buffer : Bytes)
    → NoEmptyRead r
    → final r ≡ eof
    → (s : Copying) × (flushing_io_copy add_padding rand r buffer [] ≡ returned s none)
      × Wire 8 (content r) s.sent
      × (s.written ≡ length s.sent)
unfolding flushing_io_copy
flushing_io_copy-add_padding rand r buffer q end =
    let (wire, w, sends) =
      send-Carries 8 (suc (size r)) rand (start r buffer []) q (omega arith) refl end
        (omega arith) in
    (
      sends.state,
      sends.returns,
      rw sends.sent_is w,
      omega (arith, sends.written_is, ap (λ (x : Bytes). length x) sends.sent_is),
    )

returned-sent :
    {s s' : Copying} → ◌≡◌ {A = Copied} (returned s none) (returned s' none) → s.sent ≡ s'.sent
returned-sent e = ground arith

-- The tunnel's round trip: whatever the sender wrote, a receiver that gets those bytes in any cut
-- and then the end of the stream sends on exactly the source's bytes, with no error. The sender's
-- source gives no empty read without an error and ends well, the sender has returned no error, and
-- both destinations accept every write.
pub remove_padding-add_padding :
    (rand rand' : ℕ → ℕ) (r r' : Reader) (buffer buffer' : Bytes) (s : Copying)
    → NoEmptyRead r
    → final r ≡ eof
    → final r' ≡ eof
    → flushing_io_copy add_padding rand r buffer [] ≡ returned s none
    → content r' ≡ s.sent
    → (s' : Copying) × (flushing_io_copy remove_padding rand' r' buffer' [] ≡ returned s' none)
      × (s'.sent ≡ content r)
      × (s'.written ≡ length (content r))
unfolding flushing_io_copy
remove_padding-add_padding rand rand' r r' buffer buffer' s q end end' e sent =
    let (s0, returns, w, _) = flushing_io_copy-add_padding rand r buffer q end in
    let same : s0.sent ≡ s.sent = returned-sent (sym returns ∙ e) in
    let all =
      receive-Sends rand' (suc (size r')) (start r' buffer' []) w (sent ∙ sym same) (omega arith)
        refl end' (omega arith) in
    (all.state, all.returns, all.sent_is, omega (arith, all.written_is))
