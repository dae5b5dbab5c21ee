-- ===== src/Upstream/Client/Streams.antt =====
-- httpclient/httpclient.go, `http2Conn`: the connection that a tunnel over HTTP/2 gets. What closing a
-- part gives is an argument; reading and writing are the parts' own.
use forwardproxy.Base.{Bool, true, false, Option, none, some}

-- Which of the three parts have been closed.
pub record Http2Conn : Type 0 where
  -- The writer of the request's body and the reader of the response's.
  pub in_closed : Bool
  pub out_closed : Bool
  -- The raw connection, which other streams share.
  pub raw_closed : Bool

-- `NewHttp2Conn`
abbrev pub new_http2_conn : Http2Conn
new_http2_conn = record { in_closed = false; out_closed = false; raw_closed = false }

module _ {E : Type 0} where
  abbrev first_of : Option E → Option E → Option E
  first_of none out_err = out_err
  first_of (some in_err) out_err = some in_err

  -- `Close`: both halves are closed, whatever the first gives, and the raw connection is not.
  unfoldable pub close_stream_conn : Option E → Option E → Http2Conn → Option E × Http2Conn
  close_stream_conn in_err out_err c =
      (first_of in_err out_err, record c { in_closed = true; out_closed = true })

  -- `CloseConn`
  unfoldable pub close_raw : Option E → Http2Conn → Option E × Http2Conn
  close_raw err c = (err, record c { raw_closed = true })

  -- `CloseWrite`
  unfoldable pub close_write : Option E → Http2Conn → Option E × Http2Conn
  close_write err c = (err, record c { in_closed = true })

  -- `CloseRead`
  unfoldable pub close_read : Option E → Http2Conn → Option E × Http2Conn
  close_read err c = (err, record c { out_closed = true })
