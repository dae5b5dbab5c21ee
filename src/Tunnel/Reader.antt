-- ===== src/Tunnel/Reader.antt =====
-- Go's io.Reader and io.ReadFull, as far as the tunnel uses them. A reader is the schedule by which
-- its bytes arrive: every way of cutting a byte stream that ends into finitely many reads, empty ones
-- too, is such a schedule. A source that never gives an error is none.
pub mod Laws
use forwardproxy.Base.{
  ℕ, ◌+◌, ◌-◌, suc, Bool, ◌&&◌, List, [], ◌∷◌, ◌++◌, Option, none, some, Bytes, leb, ltb, ◌==◌,
  if◌then◌else◌, length, take, drop,
}

pub data Failure : Type 0 where
  eof unexpected_eof short_write : Failure
  other : ℕ → Failure

pub data Reader : Type 0 where
  -- Every read returns no byte and this error.
  done : Failure → Reader
  -- These bytes are there, then the rest.
  chunk : Bytes → Reader → Reader
  -- These bytes are the last, and the read that takes them all returns the error with them.
  last : Bytes → Failure → Reader

abbrev pub Outcome : Type 0
Outcome = record { got : Bytes; failure : Option Failure; rest : Reader }

-- `src.Read(buf)` for a buffer of `n` bytes.
unfoldable pub read : ℕ → Reader → Outcome
read n (done e) = record { got = []; failure = some e; rest = done e }
read n (chunk b r) =
    if leb (length b) n
    then record { got = b; failure = none; rest = r }
    else record { got = take n b; failure = none; rest = chunk (drop n b) r }
read n (last b e) =
    if leb (length b) n
    then record { got = b; failure = some e; rest = done e }
    else record { got = take n b; failure = none; rest = last (drop n b) e }

-- The loop of `io.ReadAtLeast`: it reads until the buffer is full or a read fails.
unfoldable pub fill : ℕ → Reader → Outcome
unfolding read
fill n (done e) = read n (done e)
fill n (chunk b r) =
    let more = fill (n - length b) r in
    if leb n (length b)
    then read n (chunk b r)
    else record { got = b ++ more.got; failure = more.failure; rest = more.rest }
fill n (last b e) = read n (last b e)

unfoldable pub at_end : ℕ → Bytes → Option Failure → Option Failure
at_end n got none = none
at_end n [] (some e) = some e
at_end n (x ∷ got) (some eof) = some unexpected_eof
at_end n (x ∷ got) (some e) = some e

-- `io.ReadFull(src, buf)` for a buffer of `n` bytes.
unfoldable pub read_full : ℕ → Reader → Outcome
unfolding fill at_end
read_full n r =
    let out = fill n r in
    if n == 0
    then record { got = []; failure = none; rest = r }
    else if leb n (length out.got)
    then record { got = out.got; failure = none; rest = out.rest }
    else record { got = out.got; failure = at_end n out.got out.failure; rest = out.rest }

-- All the bytes that a reader will give, and the error behind them.
abbrev pub content : Reader → Bytes
content (done e) = []
content (chunk b r) = b ++ content r
content (last b e) = b

abbrev pub final : Reader → Failure
final (done e) = e
final (chunk b r) = final r
final (last b e) = e

-- A bound on the reads that are left before the first error.
abbrev pub size : Reader → ℕ
size (done e) = 0
size (chunk b r) = suc (length b + size r)
size (last b e) = suc (length b)
