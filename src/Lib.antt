-- ===== src/Lib.antt =====
-- A model of the forward proxy module for the Caddy server, and theorems about it.
--
-- The program is an HTTP forward proxy. A CONNECT request names a target; the proxy checks the
-- port, the hostname and every looked-up address against its rules, dials the addresses that pass,
-- and copies bytes both ways, with the NaiveProxy padding around the first reads where the client
-- asked for it. A CONNECT-UDP request over HTTP/3 gets an association instead, of which there is a
-- limited number in all and for each client.
--
-- Where each part is modelled:
-- - Std: the functions of Go's standard library that the program computes with (strings, strconv,
--   net, the escaping of net/url). Strings are lists of bytes.
-- - Acl: acl.go, `hostIsAllowed` and the rules that `Provision` builds (forwardproxy.go). The three
--   rule types are the constructors of `AclRule`; `tryMatch` is `try_match`.
-- - Policy: `prepareTargetPolicy`, `resolveTargetCheckACL` (native_udp_protocol.go) and
--   `portIsAllowed`. The resolver is a function parameter, as it is a field of the handler.
-- - Dial.Interleave: `interleaveTCPAddresses` (connect_dial.go). Dial.Feed: `tcpFamilyFeed` and the
--   resolver callback of `dialTCPIncremental` (connect_dial_incremental.go). Dial.Pool: the goroutines
--   of the attempts, and who owns their connections. Dial.Incremental: the whole of
--   `dialTCPIncremental`; lookups, attempts, the clock, the end of the request and the scheduler's
--   loop are steps that interleave in any way, as `run` of a list of actions. Dial.Addresses:
--   `dialTCPAddresses` (connect_dial.go), in the same way, over a fixed list of addresses.
-- - Udp.Metrics: native_udp_metrics.go. Udp.Registration: its `initConnectUDPMetrics`, over the metrics
--   library's registry as an argument. Udp.Admission: `acquireConnectUDP` and its release function
--   (native_udp_association.go). What a mutex guards is one step; between the steps any number of
--   requests interleave, as `run` of a list of actions.
-- - Tunnel.Reader: io.Reader and io.ReadFull as schedules of reads. Tunnel.Copy: `flushingIoCopy`
--   (forwardproxy.go) with its pooled buffer, random padding and failing destinations. Tunnel.Dual:
--   `dualStream`. Tunnel.Hijack: `serveHijack`.
-- - Serve: the routing of `ServeHTTP`, `checkCredentials`, the padding negotiation and the headers
--   (forwardproxy.go). The direct dial is an argument of the routing; Serve.Racing says what it is when
--   it is a run of Dial.Incremental that has returned.
-- - Masque: `parseConnectUDPTarget`, the redaction and the datagrams (native_udp_protocol.go),
--   `serveConnectUDP`, the two pumps of an association and its `run` (native_udp_association.go). In
--   Masque.Running the pumps, the timer, the ends of the request and of the stream, and the loop of
--   `run` are steps that interleave in any way. The association's end is an argument of
--   `serve_connect_udp`; Masque.Serving.Lives says what it is when it is a run that has returned.
--   Masque.Stream: native_udp_stream.go, the search through the response writers.
-- - Setup.Caddyfile: `UnmarshalCaddyfile` (caddyfile.go), on the directives that the server's
--   dispenser gives; it makes a `Config`. Setup.Provision: `Provision` (forwardproxy.go), which makes
--   the handler that Serve reads out of a `Config`.
-- - Upstream.Client: `NewHTTPConnectDialer` and `DialContext` (httpclient/httpclient.go), with the
--   cached HTTP/2 connection. Connections are numbers, and the network is a record of functions.
--   Upstream.Client.Settled: what becomes of the connections of a call.
--   Upstream.Client.Streams: the closing of `http2Conn`.
-- - Interop: cmd/m4-rfc9298-client/main.go, the client that checks a running proxy. Its runs are
--   commands over a state, which a `Service` acts on; `Relays` is what such a service promises. In
--   Interop.Served the service is the model of the server (Masque), in Interop.Limits.Seats it is the
--   server's admission (Udp).
-- - Probe: the name server of experiments/w2w3/realprobe/main.go, with its parser of queries, its
--   replies and its table of behaviours. A goroutine's reply is the delay and the datagram.
--
-- Bounds and fuel: numbers that Go keeps in 64 bits without a sign wrap around in the model. The
-- copy loop runs on fuel: one round more than the reads that the source has before its first error,
-- which is enough, since every round but the last uses one up. The loop over the labels of a query
-- has the datagram's length as its fuel, since every label takes a byte at least. The search through
-- response writers goes 16 deep, as in the code. All other functions recurse on their arguments.
--
-- Not modelled: how an address or a network is read from text and written as text (`IpText`, a
-- parameter), the resolver, the transports and the HTTP server, Unicode case folding (letters
-- outside ASCII), logging, the reading of rule files, the text of the PAC file and of the hidden page,
-- the sockets of the test client and its fixtures, the interleaving of its parallel echoes, and of
-- the measurement programs under experiments all but the name server of realprobe. A source of the
-- copy loop gives an error after finitely many reads; one that never does, over which the loop runs
-- on, is not modelled. `url.Parse` and
-- the HTTP/3 library are taken to pass the escaped path of a request on as it is.
mod Base
pub mod Std
pub mod Acl
pub mod Policy
pub mod Dial
pub mod Udp
pub mod Tunnel
pub mod Serve
pub mod Masque
pub mod Upstream
pub mod Setup
pub mod Interop
pub mod Probe
