-- ===== src/Tunnel/Copy/Tests.antt =====
-- Runs of the tunnel's copy on short streams.
use forwardproxy.Base.{ℕ, [], ◌∷◌, ◌++◌, none, Bytes, codes, ◌≡◌, ◌≢◌, refl, arith}
use forwardproxy.Tunnel.Copy.Sender.{remove_padding-add_padding}
use forwardproxy.Tunnel.Copy.Termination.{flushing_io_copy-ne-spent}
use forwardproxy.Tunnel.Copy.Truncated.{flushing_io_copy-cut}
use forwardproxy.Tunnel.Copy.{
  copy_step, Copying, cuts, flushing_io_copy, remove_padding, returned, spent,
}
use forwardproxy.Tunnel.Reader.{Reader, chunk, done, last, eof, read}

abbrev hello : Reader
hello = chunk (codes "he") (last (codes "llo") eof)

abbrev two : ℕ → ℕ
two n = 2

flushing_io_copy-ne-spent_example :
    flushing_io_copy remove_padding two hello [] (cuts 1 ∷ []) ≢ spent
flushing_io_copy-ne-spent_example =
    flushing_io_copy-ne-spent remove_padding two hello [] (cuts 1 ∷ [])

abbrev framed_hello : Bytes
framed_hello = (0 ∷ 2 ∷ 2 ∷ codes "he" ++ 0 ∷ 0 ∷ []) ++ (0 ∷ 3 ∷ 2 ∷ codes "llo" ++ 0 ∷ 0 ∷ [])

remove_padding-add_padding_example :
    (s' : Copying) × (flushing_io_copy remove_padding two (chunk framed_hello (done eof)) [] []
      ≡ returned s' none)
    × (s'.sent ≡ codes "hello")
    × (s'.written ≡ 5)
unfolding flushing_io_copy copy_step read
remove_padding-add_padding_example =
    remove_padding-add_padding two two hello (chunk framed_hello (done eof)) [] [] _
      (omega arith, tt) refl refl refl refl

flushing_io_copy-cut_example :
    (s : Copying) × (flushing_io_copy remove_padding two (last (0 ∷ 5 ∷ 0 ∷ codes "he") eof) [] []
      ≡ returned s none)
    × (s.sent ≡ codes "he")
flushing_io_copy-cut_example =
    flushing_io_copy-cut two (last (0 ∷ 5 ∷ 0 ∷ codes "he") eof) [] 5 (codes "he") (omega arith)
      (omega arith) (omega arith) refl refl
