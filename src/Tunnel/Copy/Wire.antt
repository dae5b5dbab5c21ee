-- ===== src/Tunnel/Copy/Wire.antt =====
-- The Variant1 wire format, described without the code, and what it is for a run of the loop to
-- send some bytes.
use mathlib.Core.List.{append_assoc, append-nil}
use forwardproxy.Base.{
  ℕ, zero, suc, ◌+◌, ◌<◌, ◌≡◌, refl, ap, ◌∙◌, [], ◌++◌, none, some, Bytes, length, length-append,
  arith, Option-cases, inl, inr,
}
use forwardproxy.Tunnel.Copy.Rounds.{
  copy_loop-next, copy_loop-stop, copy_step-goes_on, copy_step-ends, sent_on,
}
use forwardproxy.Tunnel.Copy.{
  PaddingType, no_padding, Round, next, stop, Copying, returned, frame, round, plain_round,
  copy_loop, flushing_io_copy, buffer_size, start, read_error,
}
use forwardproxy.Tunnel.Reader.Laws.{read-Reads}
use forwardproxy.Tunnel.Reader.{Reader, eof, read, content, final, size}

-- `Wire k data wire`: with `k` padded rounds left, `wire` carries `data`. A stream that ends before
-- the eight frames are used up ends between two frames.
pub data Wire : ℕ → Bytes → Bytes → Type 0 where
  raw : {b : Bytes} → Wire zero b b
  ended : {k : ℕ} → Wire (suc k) [] []
  framed :
      {k : ℕ} {rest wire : Bytes} (payload : Bytes) (padding : ℕ)
      → 0 < length payload
      → length payload < 65536
      → padding < 256
      → Wire k rest wire
      → Wire (suc k) (payload ++ rest) (frame payload padding ++ wire)

module _ (t : PaddingType) (rand : ℕ → ℕ) where
  -- The loop returns with no error, and has sent exactly these bytes.
  pub record Sends (fuel : ℕ) (s : Copying) (out : Bytes) : Type 0 where
    pub state : Copying
    pub returns : copy_loop fuel t rand s ≡ returned state none
    pub sent_is : state.sent ≡ s.sent ++ out
    pub written_is : state.written ≡ s.written + length out

  pub Sends-next :
      (fuel : ℕ) (s : Copying) (r : Round × ℕ) (out : Bytes)
      → round t rand s ≡ r
      → s.answers ≡ []
      → r.0.failure ≡ none
      → Sends fuel (sent_on s r) out
      → Sends (suc fuel) s (r.0.filled ++ out)
  Sends-next fuel s r out q h e later = record {
    state = later.state;
    returns =
        copy_loop-next fuel t rand s _
          (copy_step-goes_on t rand s h (rw q e) ∙ ap (λ x. next (sent_on s x)) q)
        ∙ later.returns;
    sent_is = later.sent_is ∙ append_assoc s.sent r.0.filled out;
    written_is = omega (arith, later.written_is, length-append r.0.filled out);
  }

  pub Sends-end :
      (fuel : ℕ) (s : Copying) (r : Round × ℕ)
      → round t rand s ≡ r
      → s.answers ≡ []
      → r.0.failure ≡ some eof
      → Sends (suc fuel) s r.0.filled
  unfolding read_error
  Sends-end fuel s r q h e = record {
    state = sent_on s r;
    returns =
        copy_loop-stop fuel t rand s _ _
          (copy_step-ends t rand s eof h (rw q e) ∙ ap (λ x. stop (sent_on s x) none) q);
    sent_is = refl;
    written_is = refl;
  }

  -- Rounds that pass the bytes on as they are.
  plain_cases :
      (fuel : ℕ) (s : Copying)
      → round t rand s ≡ (plain_round s, s.num_padding)
      → ((s' : Copying)
          → s'.num_padding ≡ s.num_padding
          → s'.answers ≡ []
          → final s'.reader ≡ eof
          → size s'.reader < fuel
          → Sends fuel s' (content s'.reader))
      → s.answers ≡ []
      → final s.reader ≡ eof
      → size s.reader < suc fuel
      → Sends (suc fuel) s (content s.reader)
  unfolding plain_round
  plain_cases fuel s plain ih h e lt =
      let f = read-Reads buffer_size s.reader in
      elim (Option-cases (read buffer_size s.reader).failure) [
        | inl more ↦ rw f.content_is (
            Sends-next fuel s (plain_round s, s.num_padding) _ plain h more
              (ih (sent_on s (plain_round s, s.num_padding)) refl refl (f.final_is ∙ e)
                (omega (arith, f.shrinks (omega arith) more))))
        | inr (x, over) ↦
            let (is_final, empty) = f.fails x over in
            rw (f.content_is, empty, append-nil)
              (Sends-end fuel s (plain_round s, s.num_padding) plain h
                (over ∙ ap (λ y. some y) (is_final ∙ e)))
      ]

  -- From a state whose rounds are all plain, the loop sends what is left of the source.
  pub plain-Sends :
      (fuel : ℕ) (s : Copying) (n : ℕ)
      → ((s' : Copying) → s'.num_padding ≡ n → round t rand s' ≡ (plain_round s', s'.num_padding))
      → s.num_padding ≡ n
      → s.answers ≡ []
      → final s.reader ≡ eof
      → size s.reader < fuel
      → Sends fuel s (content s.reader)
  plain-Sends zero s n plain k h e lt = absurd (omega arith)
  plain-Sends (suc fuel) s n plain k h e lt =
      plain_cases fuel s (plain s k)
        (λ s' k' h' e' lt'. plain-Sends fuel s' n plain (k' ∙ k) h' e' lt') h e lt

-- With no padding asked for, a source that ends well is passed on whole, however its reads are cut,
-- and the call returns no error and the number of bytes.
pub flushing_io_copy-no_padding :
    (rand : ℕ → ℕ) (r : Reader) (buffer : Bytes)
    → final r ≡ eof
    → (s : Copying) × (flushing_io_copy no_padding rand r buffer [] ≡ returned s none)
      × (s.sent ≡ content r)
      × (s.written ≡ length (content r))
unfolding flushing_io_copy round
flushing_io_copy-no_padding rand r buffer e =
    let all =
      plain-Sends no_padding rand (suc (size r)) (start r buffer []) 0 (λ _ _. refl) refl refl e
        (omega arith) in
    (all.state, all.returns, all.sent_is, omega (arith, all.written_is))
