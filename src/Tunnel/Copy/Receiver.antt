-- ===== src/Tunnel/Copy/Receiver.antt =====
-- The `RemovePadding` side reads the wire format, however the bytes arrive.
use mathlib.Core.List.{append_assoc}
use forwardproxy.Base.{
  ℕ, zero, suc, ◌+◌, ◌*◌, ◌/◌, ◌%◌, ◌<◌, ◌≡◌, refl, ap, ◌∙◌, [], ◌∷◌, ◌++◌, none, some, Bytes,
  length, length-replicate, replicate, arith, lt→ltb, drop,
}
use forwardproxy.Tunnel.Copy.Rounds.{sent_on}
use forwardproxy.Tunnel.Copy.Termination.{remove_payload-le}
use forwardproxy.Tunnel.Copy.Wire.{
  Wire, raw, ended, framed, Sends, Sends-next, Sends-end, plain-Sends,
}
use forwardproxy.Tunnel.Copy.{
  remove_padding, Copying, frame, Round, round, remove_round, remove_payload, remove_junk,
  plain_round, overwrite,
}
use forwardproxy.Tunnel.Reader.Laws.{read_full-ReadsFull, read_full-prefix}
use forwardproxy.Tunnel.Reader.{Reader, Outcome, eof, read_full, content, final, size, at_end}

-- A round has taken `payload` out, and `wire` is left.
pub record Removes (payload wire : Bytes) (r : Reader) (out : Round) : Type 0 where
  pub filled_is : out.filled ≡ payload
  pub clean : out.failure ≡ none
  pub left : content out.rest ≡ wire
  pub final_is : final out.rest ≡ final r

pub remove_junk-Removes :
    (padding : ℕ) (payload wire buffer : Bytes) (out : Outcome)
    → 0 < length payload
    → out.got ≡ payload
    → content out.rest ≡ replicate padding 0 ++ wire
    → Removes payload wire out.rest (remove_junk padding buffer out)
unfolding remove_junk
remove_junk-Removes padding payload wire buffer out some_bytes got e =
    let (_, clean, left) =
      rw (length-replicate {A = ℕ} padding 0) at
        (read_full-prefix (replicate padding 0) wire out.rest e) in
    let f = read_full-ReadsFull padding out.rest in
    record {
      filled_is = ground (arith, got);
      clean = ground (arith, got, clean);
      left = ground (arith, got, left);
      final_is = ground (arith, got, f.final_is);
    }

remove_payload-Removes :
    (a b c padding : ℕ) (payload wire buffer : Bytes) (r : Reader)
    → a * 256 + b ≡ length payload
    → c ≡ padding
    → 0 < length payload
    → content r ≡ payload ++ (replicate padding 0 ++ wire)
    → Removes payload wire r (remove_payload (a ∷ b ∷ c ∷ buffer) r)
unfolding remove_payload
remove_payload-Removes a b c padding payload wire buffer r n m some_bytes e =
    let (got, _, left) = read_full-prefix payload (replicate padding 0 ++ wire) r e in
    let out = read_full (length payload) r in
    let f = read_full-ReadsFull (length payload) r in
    let v =
      remove_junk-Removes padding payload wire (overwrite out.got (a ∷ b ∷ padding ∷ buffer)) out
        some_bytes got left in
    rw (n, m)
      (record {
        filled_is = v.filled_is;
        clean = v.clean;
        left = v.left;
        final_is = v.final_is ∙ f.final_is;
      })

remove_round-Removes :
    (padding : ℕ) (payload wire : Bytes) (s : Copying)
    → 0 < length payload
    → length payload < 65536
    → padding < 256
    → content s.reader ≡ frame payload padding ++ wire
    → Removes payload wire s.reader (remove_round s) × (size (remove_round s).rest < size s.reader)
unfolding remove_round
remove_round-Removes padding payload wire s some_bytes fits small e =
    let a = (length payload / 256) % 256 in
    let b = length payload % 256 in
    let c = padding % 256 in
    let behind = payload ++ (replicate padding 0 ++ wire) in
    let (got, _, left) =
      read_full-prefix (a ∷ b ∷ c ∷ []) behind s.reader
        (e ∙ ap (λ x. a ∷ b ∷ c ∷ x) (append_assoc payload (replicate padding 0) wire)) in
    let header = read_full 3 s.reader in
    let f = read_full-ReadsFull 3 s.reader in
    let v =
      remove_payload-Removes a b c padding payload wire (drop 3 s.buffer) header.rest (omega arith)
        (omega arith) some_bytes left in
    rw (got, remove_round)
      (
        record {
          filled_is = v.filled_is;
          clean = v.clean;
          left = v.left;
          final_is = v.final_is ∙ f.final_is;
        },
        omega (
          arith,
          remove_payload-le (a ∷ b ∷ c ∷ drop 3 s.buffer) header.rest,
          f.takes (ground (arith, got)),
        ),
      )

-- At the end of the source a padded round reads nothing and meets its error.
pub remove_round-ended :
    (s : Copying)
    → content s.reader ≡ []
    → final s.reader ≡ eof
    → ((remove_round s).filled ≡ []) × ((remove_round s).failure ≡ some eof)
unfolding remove_round at_end
remove_round-ended s e end =
    let f = read_full-ReadsFull 3 s.reader in
    let (got, failed) = f.short (ground (arith, e)) in ground (arith, got, failed, e, end)

pub early_round :
    (rand : ℕ → ℕ) (s : Copying) (k : ℕ)
    → s.num_padding + suc k ≡ 8
    → round remove_padding rand s ≡ (remove_round s, s.num_padding + 1)
unfolding round
early_round rand s k h = rw (lt→ltb s.num_padding 8 (omega arith), round)

late_round :
    (rand : ℕ → ℕ) (s : Copying)
    → s.num_padding ≡ 8
    → round remove_padding rand s ≡ (plain_round s, s.num_padding)
unfolding round
late_round rand s h = rw (h, round)

-- The receiving loop sends exactly the data that the wire carries.
pub receive-Sends :
    {k : ℕ} {out wire : Bytes} (rand : ℕ → ℕ) (fuel : ℕ) (s : Copying)
    → Wire k out wire
    → content s.reader ≡ wire
    → s.num_padding + k ≡ 8
    → s.answers ≡ []
    → final s.reader ≡ eof
    → size s.reader < fuel
    → Sends remove_padding rand fuel s out
receive-Sends rand fuel s raw e k h end lt =
    rw (← e) (plain-Sends remove_padding rand fuel s 8 (late_round rand) (omega arith) h end lt)
receive-Sends rand zero s ended e k h end lt = absurd (omega arith)
receive-Sends rand (suc fuel) s (ended {k = j}) e k h end lt =
    let (nothing, failed) = remove_round-ended s e end in
    rw nothing at (
      Sends-end remove_padding rand fuel s (remove_round s, s.num_padding + 1)
        (early_round rand s j k) h failed)
receive-Sends rand zero s (framed payload padding some_bytes fits small w) e k h end lt =
    absurd (omega arith)
receive-Sends rand (suc fuel) s (framed {k = j} {rest} payload padding some_bytes fits small w) e k
      h end lt =
    let r : Round × ℕ = (remove_round s, s.num_padding + 1) in
    let (v, shorter) = remove_round-Removes padding payload _ s some_bytes fits small e in
    rw v.filled_is at (
      Sends-next remove_padding rand fuel s r rest (early_round rand s j k) h v.clean (
        receive-Sends rand fuel (sent_on s r) w v.left (omega arith) refl (v.final_is ∙ end)
          (omega arith)))
