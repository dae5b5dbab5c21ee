-- ===== src/Tunnel/Dual.antt =====
-- forwardproxy.go, `dualStream`: the two copies of a tunnel, which share nothing. What the clients, the
-- targets, the random source and the buffer pool give to them is an argument.
pub mod Carries
use forwardproxy.Base.{ℕ, Bool, true, false, List, Option, none, some, Bytes}
use forwardproxy.Tunnel.Copy.{
  Answer, Copied, Copying, PaddingType, add_padding, flushing_io_copy, no_padding, remove_padding,
  returned, spent,
}
use forwardproxy.Tunnel.Reader.{Reader}

-- What one call of the inner `stream` meets.
pub record Way : Type 0 where
  pub source : Reader
  pub buffer : Bytes
  pub rand : ℕ → ℕ
  pub answers : List Answer
  -- Whether the destination is a `closeWriter`.
  pub closes_write : Bool

-- How a call of `stream` ends: the copy, and whether the destination's write side has been closed.
pub record Streamed : Type 0 where
  pub copied : Copied
  pub write_closed : Bool

unfoldable pub stream : PaddingType → Way → Streamed
unfolding flushing_io_copy
stream t w = record {
  copied = flushing_io_copy t w.rand w.source w.buffer w.answers;
  write_closed = w.closes_write;
}

-- The copy to the target, whose error is dropped, and the one to the client, whose error is returned.
pub record Dual : Type 0 where
  pub to_target : Streamed
  pub to_client : Streamed

unfoldable pub dual_stream : Bool → Way → Way → Dual
unfolding stream
dual_stream true from_client from_target = record {
  to_target = stream remove_padding from_client;
  to_client = stream add_padding from_target;
}
dual_stream false from_client from_target = record {
  to_target = stream no_padding from_client;
  to_client = stream no_padding from_target;
}
