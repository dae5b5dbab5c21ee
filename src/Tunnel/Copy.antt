-- ===== src/Tunnel/Copy.antt =====
-- forwardproxy.go, `flushingIoCopy` and the padding that it adds to or removes from the first eight
-- reads of a tunnel.
pub mod Rounds
pub mod Wire
pub mod Receiver
pub mod Sender
pub mod Truncated
pub mod Termination
mod Tests
use forwardproxy.Base.{
  ℕ, zero, suc, ◌+◌, ◌-◌, ◌*◌, ◌/◌, ◌%◌, Bool, true, false, ◌&&◌, List, [], ◌∷◌, ◌++◌, Option, none,
  some, Bytes, leb, ltb, ◌==◌, if◌then◌else◌, length, take, drop, replicate,
}
use forwardproxy.Tunnel.Reader.{Reader, Failure, eof, short_write, Outcome, read, read_full, size}

pub data PaddingType : Type 0 where
  no_padding add_padding remove_padding : PaddingType

abbrev pub num_first_paddings : ℕ
num_first_paddings = 8

abbrev pub buffer_size : ℕ
buffer_size = 65536

-- How the destination takes one write: whole, cut short with no error, with an error after some
-- bytes, or whole and then a flush that fails (a destination that is an http.ResponseWriter).
pub data Answer : Type 0 where
  accepts : Answer
  cuts : ℕ → Answer
  breaks : ℕ → Failure → Answer
  stalls : Failure → Answer

-- The loop's variables. `answers` is what the destination will do, and it accepts once that is
-- spent; `buffer` is the pooled buffer, whose old bytes stay below what is read over them.
pub record Copying : Type 0 where
  pub reader : Reader
  pub buffer : Bytes
  pub num_padding : ℕ
  pub written : ℕ
  pub sent : Bytes
  pub answers : List Answer

-- What a call returns; `spent` is no Go value: the model's fuel has run out.
pub data Copied : Type 0 where
  returned : Copying → Option Failure → Copied
  spent : Copied

abbrev pub overwrite : Bytes → Bytes → Bytes
overwrite b buffer = b ++ drop (length b) buffer

abbrev pub byte_at : ℕ → Bytes → ℕ
byte_at i [] = 0
byte_at zero (x ∷ xs) = x
byte_at (suc i) (x ∷ xs) = byte_at i xs

-- One Variant1 frame: length in two bytes, padding length, payload, padding.
abbrev pub frame : Bytes → ℕ → Bytes
frame payload padding =
    (length payload / 256) % 256
    ∷ length payload % 256
    ∷ padding % 256
    ∷ (payload ++ replicate padding 0)

-- What one round has put in `buf[0:nr]`, with `er`, the source and the buffer behind it.
abbrev pub Round : Type 0
Round = record { filled : Bytes; failure : Option Failure; rest : Reader; buffer : Bytes }

-- The `AddPadding` branch, for the number that `rand.Intn(256)` gave. The slice of the buffer that
-- is read into is `buf[3 : 65536-3-paddingSize]`.
unfoldable pub add_round : ℕ → Copying → Round
add_round padding_size s =
    let out = read (buffer_size - 3 - padding_size - 3) s.reader in
    if length out.got == 0
    then record { filled = []; failure = out.failure; rest = out.rest; buffer = s.buffer }
    else record {
      filled = frame out.got padding_size;
      failure = out.failure;
      rest = out.rest;
      buffer = overwrite (frame out.got padding_size) s.buffer;
    }

-- The padding behind a payload is read into an array of its own.
unfoldable pub remove_junk : ℕ → Bytes → Outcome → Round
remove_junk padding_size buffer out =
    let junk = read_full padding_size out.rest in
    if length out.got == 0
    then record { filled = []; failure = out.failure; rest = out.rest; buffer = buffer }
    else record { filled = out.got; failure = junk.failure; rest = junk.rest; buffer = buffer }

-- Behind a header of at least one byte the payload's length is taken from the buffer.
unfoldable pub remove_payload : Bytes → Reader → Round
unfolding remove_junk
remove_payload buffer rest =
    let out = read_full (byte_at 0 buffer * 256 + byte_at 1 buffer) rest in
    remove_junk (byte_at 2 buffer) (overwrite out.got buffer) out

-- The `RemovePadding` branch.
unfoldable pub remove_round : Copying → Round
unfolding remove_payload
remove_round s =
    let header = read_full 3 s.reader in
    if length header.got == 0
    then record { filled = []; failure = header.failure; rest = header.rest; buffer = s.buffer }
    else remove_payload (overwrite header.got s.buffer) header.rest

unfoldable pub plain_round : Copying → Round
plain_round s =
    let out = read buffer_size s.reader in
    record {
      filled = out.got;
      failure = out.failure;
      rest = out.rest;
      buffer = overwrite out.got s.buffer;
    }

-- The branch that a round takes, and the count of padded rounds behind it. `rand` gives the number
-- that the n-th call of the random source returns.
unfoldable pub round : PaddingType → (ℕ → ℕ) → Copying → Round × ℕ
unfolding add_round remove_round plain_round
round no_padding rand s = (plain_round s, s.num_padding)
round add_padding rand s =
    if ltb s.num_padding num_first_paddings
    then (add_round (rand s.num_padding % 256) s, s.num_padding + 1)
    else (plain_round s, s.num_padding)
round remove_padding rand s =
    if ltb s.num_padding num_first_paddings
    then (remove_round s, s.num_padding + 1)
    else (plain_round s, s.num_padding)

-- The destination's next answer: the bytes it takes, and the error with which the loop breaks.
unfoldable pub answer : Bytes → List Answer → record { took : Bytes; failure : Option Failure }
answer b [] = record { took = b; failure = none }
answer b (accepts ∷ _) = record { took = b; failure = none }
answer b (cuts n ∷ _) = record {
  took = take n b;
  failure = if leb (length b) n then none else some short_write;
}
answer b (breaks n e ∷ _) = record { took = take n b; failure = some e }
answer b (stalls e ∷ _) = record { took = b; failure = some e }

abbrev pub later_answers : List Answer → List Answer
later_answers [] = []
later_answers (a ∷ rest) = rest

-- The write of a round, if it filled anything.
unfoldable pub write_round : Bytes → Copying → record { next : Copying; failure : Option Failure }
unfolding answer
write_round [] s = record { next = s; failure = none }
write_round (x ∷ b) s =
    let out = answer (x ∷ b) s.answers in
    record {
      next = record s {
        written = s.written + length out.took;
        sent = s.sent ++ out.took;
        answers = later_answers s.answers;
      };
      failure = out.failure;
    }

-- `if er != nil { if er != io.EOF { err = er } }`
unfoldable pub read_error : Failure → Option Failure
read_error eof = none
read_error e = some e

pub data Step : Type 0 where
  next : Copying → Step
  stop : Copying → Option Failure → Step

conclude : Copying → Option Failure → Option Failure → Step
conclude s (some e) er = stop s (some e)
conclude s none (some e) = stop s (read_error e)
conclude s none none = next s

unfoldable pub copy_step : PaddingType → (ℕ → ℕ) → Copying → Step
unfolding conclude read_error write_round round
copy_step t rand s =
    let (r, n) = round t rand s in
    let out =
      write_round r.filled (record s { reader = r.rest; buffer = r.buffer; num_padding = n }) in
    conclude out.next out.failure r.failure

unfoldable pub copy_loop : ℕ → PaddingType → (ℕ → ℕ) → Copying → Copied
copy_loop zero t rand s = spent
copy_loop (suc fuel) t rand s = elim (copy_step t rand s) [
  | next s' ↦ copy_loop fuel t rand s'
  | stop s' e ↦ returned s' e
]

abbrev pub start : Reader → Bytes → List Answer → Copying
start reader buffer answers = record {
  reader = reader;
  buffer = buffer;
  num_padding = 0;
  written = 0;
  sent = [];
  answers = answers;
}

-- `flushingIoCopy(dst, src, buf, paddingType)`. The fuel is one round more than the source has reads
-- before its first error.
unfoldable pub flushing_io_copy : PaddingType → (ℕ → ℕ) → Reader → Bytes → List Answer → Copied
unfolding copy_loop
flushing_io_copy t rand reader buffer answers =
    copy_loop (suc (size reader)) t rand (start reader buffer answers)
