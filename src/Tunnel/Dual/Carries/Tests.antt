-- ===== src/Tunnel/Dual/Carries/Tests.antt =====
-- A padded tunnel with one frame from the client and two reads from the target.
use forwardproxy.Base.{[], ◌∷◌, ◌++◌, true, none, codes, ◌≡◌, refl, arith}
use forwardproxy.Tunnel.Copy.Wire.{Wire, ended, framed}
use forwardproxy.Tunnel.Copy.{Copying, returned}
use forwardproxy.Tunnel.Dual.Carries.{dual_stream-carries}
use forwardproxy.Tunnel.Dual.{Way, dual_stream}
use forwardproxy.Tunnel.Reader.{chunk, last, eof}

abbrev from_client : Way
from_client = record {
  source = last (0 ∷ 2 ∷ 1 ∷ (codes "he" ++ 0 ∷ [])) eof;
  buffer = [];
  rand = λ n. 5;
  answers = [];
  closes_write = true;
}

abbrev from_target : Way
from_target = record {
  source = chunk (codes "he") (last (codes "llo") eof);
  buffer = [];
  rand = λ n. 2;
  answers = [];
  closes_write = true;
}

dual_stream-carries_example :
    (s s' : Copying) × ((dual_stream true from_client from_target).to_target.copied
      ≡ returned s none)
    × (s.sent ≡ codes "he")
    × ((dual_stream true from_client from_target).to_client.copied ≡ returned s' none)
    × Wire 8 (codes "hello") s'.sent
dual_stream-carries_example =
    dual_stream-carries from_client from_target (codes "he") refl refl
      (framed (codes "he") 1 (omega arith) (omega arith) (omega arith) ended) refl (omega arith, tt)
      refl
