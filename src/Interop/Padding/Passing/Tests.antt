-- ===== src/Interop/Padding/Passing/Tests.antt =====
-- The run with credentials, where the padding is of two bytes.
use forwardproxy.Base.{true, [], none, some, codes, ◌≡◌, refl}
use forwardproxy.Interop.Padding.Passing.{run_tcp_padding-interoperates}
use forwardproxy.Interop.Padding.{interoperates, run_tcp_padding, tcp_request_header}
use forwardproxy.Serve.Headers.{
  negotiate_naive_padding, set_naive_padding_response_headers, variant1,
}
use forwardproxy.Tunnel.Copy.{Copying, add_padding, flushing_io_copy, returned}
use forwardproxy.Tunnel.Reader.{last, eof}

run_tcp_padding-interoperates_example :
    (negotiate_naive_padding (tcp_request_header (codes "Basic x")) ≡ variant1)
    × (s : Copying) × (flushing_io_copy add_padding (λ n. 2) (last (codes "y") eof) [] []
        ≡ returned s none)
    × (run_tcp_padding (record {
      listens = true;
      opens = true;
      accepts_header = true;
      accepts_frame = true;
      response =
          some (
            200,
            set_naive_padding_response_headers 3 9 [] (tcp_request_header (codes "Basic x")) 1,
          );
      body = s.sent;
      target_answers = true;
    })
        ≡ interoperates)
run_tcp_padding-interoperates_example =
    run_tcp_padding-interoperates 3 9 [] (codes "Basic x") (λ n. 2) (last (codes "y") eof) [] tt
      refl refl
