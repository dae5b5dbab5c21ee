-- ===== src/Tunnel/Copy/Termination.antt =====
-- The loop of `flushingIoCopy` ends: every round that goes on has shortened the source.
use forwardproxy.Base.{
  ℕ, zero, suc, ◌-◌, ◌≤◌, ◌<◌, ◌≡◌, ◌≢◌, refl, List, [], ◌∷◌, Option, none, some, Bytes, length,
  arith, Bool-cases, inl, inr, ◌==◌, ltb, ltb→lt, ap,
}
use native.Mathlib.Nat.{le_trans}
use forwardproxy.Tunnel.Copy.{
  remove_junk, remove_payload, PaddingType, no_padding, add_padding, remove_padding, Answer,
  Copying, spent, Round, add_round, remove_round, plain_round, round, copy_step, next, stop, Step,
  copy_loop, flushing_io_copy, overwrite, start, num_first_paddings, write_round, conclude,
  buffer_size,
}
use forwardproxy.Tunnel.Copy.Rounds.{copy_loop-next, copy_loop-stop}
use forwardproxy.Tunnel.Reader.Laws.{ReadsFull, read-Reads, read_full-ReadsFull}
use forwardproxy.Tunnel.Reader.{Failure, Reader, Outcome, read_full, size, content, final, at_end}

-- A round that met no error leaves a shorter source.
abbrev Shrinks : Reader → Round → Type 0
Shrinks r out = out.failure ≡ none → size out.rest < size r

add_round-Shrinks : (p : ℕ) (s : Copying) → p < 256 → Shrinks s.reader (add_round p s)
unfolding add_round
add_round-Shrinks p s h e =
    let f = read-Reads (buffer_size - 3 - p - 3) s.reader in ground (arith, f.shrinks)

plain_round-Shrinks : (s : Copying) → Shrinks s.reader (plain_round s)
unfolding plain_round
plain_round-Shrinks s e = (read-Reads buffer_size s.reader).shrinks (omega arith) e

remove_junk-le : (p : ℕ) (b : Bytes) (o : Outcome) → size (remove_junk p b o).rest ≤ size o.rest
unfolding remove_junk
remove_junk-le p b o = ground (arith, (read_full-ReadsFull p o.rest).no_grow)

pub remove_payload-le : (b : Bytes) (r : Reader) → size (remove_payload b r).rest ≤ size r
unfolding remove_payload
remove_payload-le b r = le_trans (remove_junk-le _ _ _) (read_full-ReadsFull _ r).no_grow

header_empty : (o : Outcome) (r : Reader) → ReadsFull 3 r o → o.got ≡ [] → o.failure ≢ none
unfolding at_end
header_empty o r f e clean = elim (Bool-cases (ltb (length (content r)) 3)) [
  | inl few ↦
      let (_, failed) = f.short (ltb→lt _ _ few) in
      absurd (cc (failed, ap (λ x. at_end 3 x (some (final r))) e))
  | inr many ↦ absurd (ground (arith, f.full))
]

remove_round-Shrinks : (s : Copying) → Shrinks s.reader (remove_round s)
unfolding remove_round
remove_round-Shrinks s e =
    let header = read_full 3 s.reader in
    let f = read_full-ReadsFull 3 s.reader in
    elim (Bool-cases (length header.got == 0)) [
      | inl empty ↦
          absurd (header_empty header s.reader f (ground arith) (rw (empty, remove_round) at e))
      | inr some_bytes ↦
          rw (some_bytes, remove_round)
            (omega (
              arith,
              remove_payload-le (overwrite header.got s.buffer) header.rest,
              f.takes (ground arith),
            ))
    ]

round-Shrinks : (t : PaddingType) (rand : ℕ → ℕ) (s : Copying) → Shrinks s.reader (round t rand s).0
unfolding round
round-Shrinks no_padding rand s e = plain_round-Shrinks s e
round-Shrinks add_padding rand s e = elim (Bool-cases (ltb s.num_padding num_first_paddings)) [
  | inl early ↦ rw (early, round) (add_round-Shrinks _ s (omega arith) (rw (early, round) at e))
  | inr late ↦ rw (late, round) (plain_round-Shrinks s (rw (late, round) at e))
]
round-Shrinks remove_padding rand s e = elim (Bool-cases (ltb s.num_padding num_first_paddings)) [
  | inl early ↦ rw (early, round) (remove_round-Shrinks s (rw (early, round) at e))
  | inr late ↦ rw (late, round) (plain_round-Shrinks s (rw (late, round) at e))
]

write_round-reader : (b : Bytes) (s : Copying) → (write_round b s).next.reader ≡ s.reader
unfolding write_round
write_round-reader [] s = refl
write_round-reader (x ∷ b) s = refl

conclude_next :
    (s s' : Copying) (ew er : Option Failure)
    → conclude s ew er ≡ next s'
    → (ew ≡ none) × (er ≡ none) × (s' ≡ s)
unfolding conclude
conclude_next s s' none none h = ground arith
conclude_next s s' none (some e) h = absurd (cc)
conclude_next s s' (some e) none h = absurd (cc)
conclude_next s s' (some e) (some e') h = absurd (cc)

copy_step-next-lt :
    (t : PaddingType) (rand : ℕ → ℕ) (s s' : Copying)
    → copy_step t rand s ≡ next s'
    → size s'.reader < size s.reader
unfolding copy_step
copy_step-next-lt t rand s s' h =
    let r = (round t rand s).0 in
    let s0 = record s { reader = r.rest; buffer = r.buffer; num_padding = (round t rand s).1 } in
    let out = write_round r.filled s0 in
    let (_, clean, same) = conclude_next out.next s' out.failure r.failure h in
    rw (same, write_round-reader r.filled s0) (round-Shrinks t rand s clean)

step_cases :
    {fuel : ℕ} (t : PaddingType) (rand : ℕ → ℕ) (s : Copying)
    → ((s' : Copying) → size s'.reader < fuel → copy_loop fuel t rand s' ≢ spent)
    → size s.reader < suc fuel
    → copy_loop (suc fuel) t rand s ≢ spent
step_cases {fuel} t rand s ih h = go (copy_step t rand s) refl
  where
    go : (out : Step) → copy_step t rand s ≡ out → copy_loop (suc fuel) t rand s ≢ spent
    go (next s') e =
        rw (copy_loop-next fuel t rand s s' e)
          (ih s' (omega (arith, copy_step-next-lt t rand s s' e)))
    go (stop s' x) e = rw (copy_loop-stop fuel t rand s s' x e) (λ q. cc)

copy_loop-ne-spent :
    (fuel : ℕ) (t : PaddingType) (rand : ℕ → ℕ) (s : Copying)
    → size s.reader < fuel
    → copy_loop fuel t rand s ≢ spent
unfolding copy_loop
copy_loop-ne-spent zero t rand s h = absurd (omega arith)
copy_loop-ne-spent (suc fuel) t rand s h = step_cases t rand s (copy_loop-ne-spent fuel t rand) h

-- `flushingIoCopy` returns on every source that gives its first error after finitely many reads,
-- empty reads among them, whatever the padding, the random numbers, the pooled buffer's old bytes and
-- the destination's answers: a round more than there are reads is enough.
pub flushing_io_copy-ne-spent :
    (t : PaddingType) (rand : ℕ → ℕ) (r : Reader) (buffer : Bytes) (answers : List Answer)
    → flushing_io_copy t rand r buffer answers ≢ spent
unfolding flushing_io_copy
flushing_io_copy-ne-spent t rand r buffer answers =
    copy_loop-ne-spent (suc (size r)) t rand (start r buffer answers) (omega arith)
