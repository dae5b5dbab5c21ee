-- ===== src/Tunnel/Copy/Rounds.antt =====
-- One round of the loop of `flushingIoCopy`, by what it read and what the destination did.
use mathlib.Core.List.{append-nil}
use mathlib.Core.Path.{ap₂}
use forwardproxy.Base.{
  ℕ, suc, ◌+◌, ◌++◌, ap, ◌∙◌, [], ◌∷◌, ◌≡◌, refl, Option, none, some, Bytes, length, arith,
}
use forwardproxy.Tunnel.Copy.{
  PaddingType, Copying, returned, Round, round, copy_step, next, stop, copy_loop, conclude,
  write_round, read_error,
}
use forwardproxy.Tunnel.Reader.{Failure}

pub copy_loop-next :
    (fuel : ℕ) (t : PaddingType) (rand : ℕ → ℕ) (s s' : Copying)
    → copy_step t rand s ≡ next s'
    → copy_loop (suc fuel) t rand s ≡ copy_loop fuel t rand s'
unfolding copy_loop
copy_loop-next fuel t rand s s' e = rw (e, copy_loop)

pub copy_loop-stop :
    (fuel : ℕ) (t : PaddingType) (rand : ℕ → ℕ) (s s' : Copying) (x : Option Failure)
    → copy_step t rand s ≡ stop s' x
    → copy_loop (suc fuel) t rand s ≡ returned s' x
unfolding copy_loop
copy_loop-stop fuel t rand s s' x e = rw (e, copy_loop)

-- The state behind a round whose bytes an accepting destination has taken.
abbrev pub sent_on : Copying → Round × ℕ → Copying
sent_on s (r, n) = record {
  reader = r.rest;
  buffer = r.buffer;
  num_padding = n;
  written = s.written + length r.filled;
  sent = s.sent ++ r.filled;
  answers = [];
}

write_accepted :
    (b : Bytes) (s : Copying)
    → s.answers ≡ []
    → ((write_round b s).next
        ≡ record s { written = s.written + length b; sent = s.sent ++ b; answers = [] })
      × ((write_round b s).failure ≡ none)
unfolding write_round
write_accepted [] s h = (ground (arith, append-nil s.sent), refl)
write_accepted (x ∷ b) s h = (ground arith, ground arith)

abbrev before_write : Copying → Round × ℕ → Copying
before_write s (r, n) = record s { reader = r.rest; buffer = r.buffer; num_padding = n }

conclude_accepted :
    (s : Copying) (r : Round × ℕ)
    → s.answers ≡ []
    → conclude
        (write_round r.0.filled (before_write s r)).next
        (write_round r.0.filled (before_write s r)).failure
        r.0.failure
      ≡ conclude (sent_on s r) none r.0.failure
conclude_accepted s r h =
    let (state, clean) = write_accepted r.0.filled (before_write s r) h in
    ap₂ (λ a b. conclude a b r.0.failure) state clean

pub copy_step-goes_on :
    (t : PaddingType) (rand : ℕ → ℕ) (s : Copying)
    → s.answers ≡ []
    → (round t rand s).0.failure ≡ none
    → copy_step t rand s ≡ next (sent_on s (round t rand s))
unfolding copy_step conclude
copy_step-goes_on t rand s h e = conclude_accepted s (round t rand s) h ∙ ap (conclude _ none) e

pub copy_step-ends :
    (t : PaddingType) (rand : ℕ → ℕ) (s : Copying) (x : Failure)
    → s.answers ≡ []
    → (round t rand s).0.failure ≡ some x
    → copy_step t rand s ≡ stop (sent_on s (round t rand s)) (read_error x)
unfolding copy_step conclude
copy_step-ends t rand s x h e = conclude_accepted s (round t rand s) h ∙ ap (conclude _ none) e
