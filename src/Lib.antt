-- ===== src/Lib.antt =====
-- nl-punch carries TCP connections between two peers over a punched QUIC session. A signaling
-- server (cmd/nl-punch-signaling, internal/signaling/server.go) lets them exchange ICE offers; once
-- they are connected, each TCP connection becomes a group of streams, its stripes, with a header on
-- each (internal/forward/forward.go), and its bytes travel over them as numbered chunks.
--
-- Prelude holds the shared names: lists, byte strings and dictionaries over the native numbers.
-- Stream is what the code uses of io and encoding/binary: `io.ReadFull` over a reader that fails
-- after its bytes, `Write` on a connection that may break after any byte, big-endian integers. Both
-- are the documented behaviour of Go's library.
--
-- Forward/Header is `writeStreamHeader` and `readStreamHeader`, Forward/Chunk is `writeChunk` and
-- `readChunk`. Forward/Dispatch is `writeStripes`: the source is the list of what its `Read` calls
-- return, and the writer that takes each chunk from the unbuffered channel is given by a list of
-- picks, so that a theorem for all picks is one for every schedule; no result stands for a send
-- that waits for ever, and `streams_after` says what the stripes carry then. Forward/Reassembly is
-- `readStripesToTCP`: each reader goroutine is the list of what it sends, and the main loop runs
-- over what the channel delivers. Its readers run on fuel, one round for each byte that is left and
-- one more, which is enough as each round that goes on takes a byte; its draining runs on one round
-- for each waiting chunk and one more, as each round that goes on deletes one. Forward/Pump joins
-- the two ends: the channel delivers any interleaving of what the readers send. Forward/Router is
-- `AcceptRouter.handle`, one step for each stream in the order of `groupsMu`; a stream is a number,
-- and a nil entry of a group is `none`.
--
-- Forward/Listener is `TCPListener`: `Start`, `BoundPorts` and `Close` over the sockets that the
-- system gives, `acceptLoop`, and `handle`, for one connection, over what its `OpenStream` calls
-- return. Forward/Listener/Sequence joins it to the router, and Forward/Tunnel joins both to the
-- pump, for the one stream that a connection has. Forward/Striped is `pumpStriped`: a step relation
-- on its two goroutines, what they close, and the signals that the call waits for; when a direction
-- comes to its end, if it does, is a parameter, as Forward/Dispatch has schedules on which it never
-- does.
--
-- Config is internal/config/config.go; reading the file, expanding its variables and decoding its
-- JSON are arguments of `load`. Main is the dial map and the waits of cmd/nl-punch/main.go, which
-- join the configuration to the router; Main/Startup is `main` up to its loop, and Main/EndToEnd
-- follows a connection, and the bytes on it, from the configuration of one peer to the service at
-- the other. Main/Session is `runOnce`, and Main/Session/Reconnect is `runReconnectLoop`: the state
-- is what the process has open, a deferred call is a function on it that is applied to every
-- result, and the calls of a session are a record of what they return; `Session.Wait` is part of
-- its select. The connection that the agent gives ends its agent when it is closed, which is the
-- documented behaviour of the pion library; an agent whose last call fails, and every QUIC
-- transport, is counted, as nothing closes it.
--
-- Signaling/Client is internal/signaling/client.go over the HTTP exchanges that its requests meet;
-- its polls run over a list of them. Signaling/Client/Requests is what the client sends, and what
-- the handlers of the server read of it, over any encoding of JSON texts that the decoders read
-- back.
--
-- Signaling/Server is the server's handlers behind its middleware, and `Clear`. A request carries
-- its bodies as the JSON decoder leaves them, and a response its value as it is before it is
-- encoded. Signaling/Server/History is the abstract view of it.
--
-- 32-bit sequence numbers and 64-bit byte counters wrap around as they do in the code.
--
-- Ice is internal/ice/ice.go: `Connect` over a record of what the calls of the pion library return,
-- with the requests of its exchange as the client meets them. Ice/Rendezvous is the exchange of the
-- two peers over the server's own handlers, as a step relation on the server and on where each peer
-- stands: a step is one request, and a peer may start again, or another session's request come, at
-- any time; `connect` of Ice is one attempt of one peer. Ice/Meeting lets both peers run `connect`
-- with the client's requests over the server's handlers.
--
-- Transport is internal/transport/transport.go: `Serve` and `Dial` over what the calls of the QUIC
-- library return, and `OpenStream`. Transport/Packets is `bufferedPacketConn`, a run over the
-- datagrams and reads in the order that they meet its queue. Transport/Accept is `acceptLoop`,
-- `AcceptStream` and `Close` as a step relation on the channel that they share. A connection or a
-- stream is a number.
--
-- Bench is cmd/nl-punch-bench/main.go: the four modes of its server, the statistics, and the tests
-- of its client: Bench/Latency, Bench/FreshStream, Bench/Throughput and Bench/Idle. The clock is
-- the list of its readings. The upward loop runs on fuel, one round for each byte that the
-- connection takes and one more, which is enough as each round that goes on takes a byte.
--
-- Not modelled: QUIC, TLS and ICE themselves, which are libraries; the signaling command, which
-- parses flags and starts the HTTP server; deadlines, logging, the parsing of flags and JSON
-- output; the two seconds for which `Close` of a listener and of a router waits for its goroutines;
-- the closing of connections where no definition says so; the goroutines that a session leaves;
-- and the redirect of Go's ServeMux from /punch to /punch/, in place of which there is a 404.
--
-- Tests holds the theorems at concrete inputs.
pub mod Prelude
pub mod Stream
pub mod Config
pub mod Forward
pub mod Signaling
pub mod Main
pub mod Ice
pub mod Transport
pub mod Bench
pub mod Tests
